-- ===== src/Lib.antt =====
-- FreeNT's user-mode components in freestanding C, as functions on explicit states.
--
-- Parts and how they interact:
--   Base        status codes of the NT kernel, words, C arrays, tests: shared by all parts.
--   Tty         nttty/tty.c and nttty/tty.h, the terminal subsystem. Tty.Ring is the pair of buffers
--               (NttyPushInputChar, NttyPopInputChar and the output twins), Tty.Types the structures
--               and initialisers, Tty.Cooked, Tty.Input, Tty.Ioctl and Tty.Table the two line
--               disciplines and their function tables, Tty.Api and Tty.Control the functions on a
--               device that tty.h declares, Tty.Registry the list of devices (NttyInitialize,
--               NttyCreateDevice, NttyCloseDevice, NttyShutdown). A call of the interface goes through
--               the device's table to a discipline, which moves bytes between the caller and a ring.
--   Heap        freedll/src/heap.c, the heap manager of FreeDLL: heaps and chunk headers at addresses
--               (InitializeProcessHeap, CreateHeap, DestroyHeap), Heap.Allocate the calls on a heap
--               (RtlAllocateHeap, RtlFreeHeap, RtlReAllocateHeap, RtlSizeHeap), Heap.Layout and Heap.Fit
--               the list of blocks that the headers stand for and first fit on it, Heap.Join and Heap.Free
--               the joins of free neighbours in it. A reallocation copies by memcpy of Crt.
--   Crt         freedll/src/crt_memory.c, crt_string.c and crt_stdlib.c: Crt.Memory, Crt.Text, Crt.Wide and
--               Crt.Sets are the functions on memory, on strings, on wide strings and on sets of characters
--               (strtok too), memory being a function of the address; Crt.Numbers reads numbers, Crt.Search
--               is freent_bsearch and Crt.Sort freent_qsort; Crt.Alloc allocates on the process heap of Heap.
--               Crt.Format and Crt.Format.Print are freedll/src/crt_format.c: the conversions, the parser
--               of a format and freent_vsnprintf, which puts the characters into a buffer.
--   Rtl         freedll/src/rtl.c and freedll/src/stringconv.c over Crt: Rtl.Bytes the memory functions,
--               Rtl.Strings counted strings and the version, Rtl.Convert the conversions between bytes and
--               wide characters, Rtl.Handles the search for a module in the PEB.
--   Posix       ntposix/ntposix.c, the POSIX calls over the kernel: Posix the table of descriptors,
--               Posix.NtPath the path conversion (make_nt_path), Posix.Calls the calls (nposix_open to
--               nposix_fstat). A call finds the kernel's handle in the table and turns the kernel's answer
--               into a result or an error number.
--   Dylib       ntdylib/src/loader.c, ntdylib/src/exports.c and ntdylib/include/ntdylib.h, the library
--               loader: Dylib the headers of an image, Dylib.Relocs and Dylib.Sections what the loader does
--               with its parts, by memcpy and memset of Crt, Dylib.Exports the search for a function,
--               Dylib.Modules the list of the loaded modules, Dylib.Imports the resolution of imports by
--               that search in the modules of that list, Dylib.Files the read of a file and its names,
--               Dylib.Load the load of a library as a whole, Dylib.Library the start and the end of the
--               loader with ntdylib/src/dllmain.c.
--
--   Ntvm        ntvm/ntvm.c and ntvm/ntvm.h, the machine for DOS programs, whose memory is that of Crt.Alloc.
--   Installer   installer/src/installer.c: Installer the configuration, Installer.Arguments the command
--               line, Installer.Screens the screens on the keys and lines entered, Installer.Script the
--               script for diskpart, Installer.Patches the copy of a registry file, Installer.Removal and
--               Installer.Steps the installation, as the list of what is asked of the system.
--
-- State and operations. A structure is a record with the fields of the source, a fixed array a function
-- of the index, a pointer to a device of the list an address in a store of devices with 0 for NULL, and
-- a read of an address that holds nothing a fault. A function that updates a structure returns the new
-- one beside its status. A NULL pointer argument is `none`, or a Boolean for a pointer that is only
-- written through. UCHAR, ULONG and LONG values are native numbers with their wrap-around written out.
--
-- Loops. A loop over a caller's buffer is recursion on it or on the rounds left. The walks along the
-- device list take fuel; more fuel than the list has devices is enough, as the theorems on closing and
-- shutdown state.
--
-- The search for a chunk takes fuel, one more than the chunks of the heap, and a loop to the
-- terminator of a string one more than its characters.
--
-- The loop over relocation blocks takes fuel, one more than the table has bytes. The list of loaded modules
-- is the list that its Next fields make.
--
-- The loop over a format takes fuel, one more than its characters. The variable arguments are slots of 64
-- bits, the strings they point to a function of the address; widths and precisions stay below 2^31.
--
-- A binary search takes fuel, one more than its elements. The read of a file takes one more than the
-- pieces that the kernel gives, a table of thunks one more than its entries, strtok one more than the
-- characters of the string. The loops of freent_qsort take fuel for the ranges and for the rounds.
-- The partition script takes one more than the characters of the commands, a registry file as much as its
-- characters.
--
-- Not modelled. The kernel (mutants, events, files, memory): its answers are arguments, and
-- so are the buffers that the process heap gives to the loader. Taking and releasing a
-- mutant has no effect that a caller sees here, since calls are taken one after the other. The status
-- codes are those that the NT headers publish. Left out are freent_snprintf, which hands its
-- arguments on, the stubs of FreeDLL that return a constant, crt_compat.c, whose functions hand their
-- arguments on, the start-up and the process calls of FreeDLL, NtdylibGetModuleInfo, and of the installer
-- the drawing, the detection of disks and the output of commands. nativeshell and ndk are copies of
-- other projects (Native Shell, NDK).
pub mod Base
pub mod Crt
pub mod Dylib
pub mod Heap
pub mod Installer
pub mod Ntvm
pub mod Posix
pub mod Rtl
pub mod Tty
