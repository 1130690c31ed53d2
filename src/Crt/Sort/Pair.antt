-- ===== src/Crt/Sort/Pair.antt =====
-- freent_qsort of freedll/src/crt_string.c on an array of two elements.
