-- ===== src/Crt/Sets/Token.antt =====
-- freent_strtok of freedll/src/crt_string.c against the characters of the string and of the set.
use std.Path.{subst}
use free_nt.Base.{
  ℕ, suc, ◌+◌, ◌<◌, ◌≡◌, ◌≢◌, ◌⊎◌, inl, inr, refl, sym, ap, ◌∙◌, true, false, Option, some, List,
  [], ◌∷◌, length, take, take_all, drop, dec_lt, ◌==◌, update, update_ne, arith,
}
use free_nt.Crt.Memory.{Bytes}
use free_nt.Crt.Measure.{HasText, HasText-update}
use free_nt.Crt.Sets.{span_from, TokenState, cut_token, strtok}
use free_nt.Crt.Sets.Span.{
  span_length, span_from_lem, span_length_bound, HasText-drop, HasText-cut, text_end, text_inside,
  length-drop,
}

-- A string of delimiters only: no token, and memory is as before.
pub record NoToken (ds cs : List ℕ) (m : Bytes) (out : Option TokenState) : Type 0 where
  pub state : TokenState
  pub returns : out ≡ some state
  pub all_delimiters : span_length true ds cs ≡ length cs
  pub no_token : state.token ≡ 0
  pub same : (a : ℕ) → state.memory a ≡ m a

-- The first token: it starts behind the leading delimiters, is closed by a NUL in place of the delimiter
-- behind it, and the search goes on there; without such a delimiter the search is over.
pub record Token (ds cs : List ℕ) (m : Bytes) (s : ℕ) (out : Option TokenState) : Type 0 where
  pub state : TokenState
  pub returns : out ≡ some state
  pub start : ℕ
  pub start_is : start ≡ span_length true ds cs
  pub size : ℕ
  pub size_is : size ≡ span_length false ds (drop start cs)
  pub not_last : start < length cs
  pub token_at : state.token ≡ s + start
  pub token_text : HasText state.memory state.token (take size (drop start cs))
  pub rest :
      ((start + size ≡ length cs) × (state.next ≡ 0))
      ⊎ ((start + size < length cs)
          × (state.next ≡ s + start + size + 1)
          × HasText state.memory state.next (drop (suc (start + size)) cs))
  pub outside : (a : ℕ) → a ≢ s + start + size → state.memory a ≡ m a

module _ (rounds fuel : ℕ) (m : Bytes) (next s delim : ℕ) where
  strtok_none :
      m s ≡ 0
      → s ≢ 0
      → strtok rounds fuel m next s delim ≡ some (record { token = 0; next = s; memory = m })
  unfolding strtok
  strtok_none ends based =
      let given : (s == 0) ≡ false = ground arith in
      let done : (m s == 0) ≡ true = ground arith in rw (strtok, given, given, done) refl

  strtok_skipped :
      (start : ℕ)
      → m s ≢ 0
      → s ≢ 0
      → span_from rounds fuel m s delim true ≡ some start
      → m start ≡ 0
      → strtok rounds fuel m next s delim ≡ some (record { token = 0; next = 0; memory = m })
  unfolding strtok
  strtok_skipped start more based skipped ends =
      let given : (s == 0) ≡ false = ground arith in
      let more_text : (m s == 0) ≡ false = ground arith in
      let done : (m start == 0) ≡ true = ground arith in
      rw (strtok, given, given, more_text, skipped, done) refl

  strtok_found :
      (start stop : ℕ)
      → m s ≢ 0
      → s ≢ 0
      → span_from rounds fuel m s delim true ≡ some start
      → m start ≢ 0
      → span_from rounds fuel m start delim false ≡ some stop
      → strtok rounds fuel m next s delim ≡ some (cut_token m start stop)
  unfolding strtok
  strtok_found start stop more based skipped going found =
      let given : (s == 0) ≡ false = ground arith in
      let more_text : (m s == 0) ≡ false = ground arith in
      let inside : (m start == 0) ≡ false = ground arith in
      rw (strtok, given, given, more_text, skipped, inside, found) refl

  cut_end :
      (start stop : ℕ)
      → m stop ≡ 0
      → cut_token m start stop ≡ record { token = start; next = 0; memory = m }
  cut_end start stop ends = ground arith

  cut_inside :
      (start stop : ℕ)
      → m stop ≢ 0
      → cut_token m start stop ≡ record { token = start; next = stop + 1; memory = update m stop 0 }
  cut_inside start stop going = ground arith

  last_cut :
      (cs ds : List ℕ) (start size : ℕ)
      → start ≡ span_length true ds cs
      → size ≡ span_length false ds (drop start cs)
      → start + size ≡ length cs
      → start < length cs
      → HasText m s cs
      → strtok rounds fuel m next s delim ≡ some (cut_token m (s + start) (s + start + size))
      → Token ds cs m s (strtok rounds fuel m next s delim)
  last_cut cs ds start size start_is size_is whole inside text ran = record {
    state = record { token = s + start; next = 0; memory = m };
    returns =
        ran
        ∙ ap (λ t. some t)
            (cut_end (s + start) (s + start + size) (
              ap m {x = s + start + size} {y = s + length cs} (omega (arith, whole))
              ∙ text_end m s cs text));
    start = start;
    start_is = start_is;
    size = size;
    size_is = size_is;
    not_last = inside;
    token_at = refl;
    token_text =
        rw (take_all size (drop start cs) (omega (arith, length-drop start cs, whole)))
          (HasText-drop m s start cs (omega (arith, inside)) text);
    rest = inl (whole, refl);
    outside = λ a other. refl;
  }

  inner_cut :
      (cs ds : List ℕ) (start size : ℕ)
      → start ≡ span_length true ds cs
      → size ≡ span_length false ds (drop start cs)
      → start + size < length cs
      → HasText m s cs
      → strtok rounds fuel m next s delim ≡ some (cut_token m (s + start) (s + start + size))
      → Token ds cs m s (strtok rounds fuel m next s delim)
  inner_cut cs ds start size start_is size_is inside text ran = record {
    state = record {
      token = s + start;
      next = s + start + size + 1;
      memory = update m (s + start + size) 0;
    };
    returns =
        ran
        ∙ ap (λ t. some t)
            (cut_inside (s + start) (s + start + size) (λ e.
              text_inside m s (start + size) cs inside text
                (ap m {x = s + (start + size)} {y = s + start + size} (omega arith) ∙ e)));
    start = start;
    start_is = start_is;
    size = size;
    size_is = size_is;
    not_last = omega arith;
    token_at = refl;
    token_text =
        HasText-cut m (s + start) size (drop start cs) (omega (arith, length-drop start cs, inside))
          (HasText-drop m s start cs (omega (arith, inside)) text);
    rest = inr (
      inside,
      refl,
      HasText-update m (s + start + size) 0 (s + start + size + 1) (drop (suc (start + size)) cs)
          (inl (omega arith))
          (subst (λ x. HasText m x (drop (suc (start + size)) cs))
            (let at : s + suc (start + size) ≡ s + start + size + 1 = omega arith in at)
            (HasText-drop m s (suc (start + size)) cs (omega (arith, inside)) text)),
    );
    outside = λ a other. update_ne m 0 (λ e. other (sym e));
  }

  -- The call on a string `cs` with the set `ds`, with more rounds than the string and more fuel than the
  -- set has characters, returns, and gives the first token or, if the string has delimiters only, none.
  pub strtok-split :
      (cs ds : List ℕ)
      → length cs < rounds
      → length ds < fuel
      → s ≢ 0
      → delim ≢ 0
      → HasText m s cs
      → HasText m delim ds
      → NoToken ds cs m (strtok rounds fuel m next s delim)
        ⊎ Token ds cs m s (strtok rounds fuel m next s delim)
  strtok-split [] ds more enough based delim_based text chars = inl (record {
    state = record { token = 0; next = s; memory = m };
    returns = strtok_none text based;
    all_delimiters = refl;
    no_token = refl;
    same = λ a. refl;
  })
  strtok-split (c ∷ cs) ds more enough based delim_based text chars =
      let all = c ∷ cs in
      let start = span_length true ds all in
      let size = span_length false ds (drop start all) in
      let not_empty : m s ≢ 0 = λ e. text.1 (sym text.0 ∙ e) in
      let skipped =
        span_from_lem rounds fuel m s delim true all ds more enough text chars delim_based in
      let bound = span_length_bound true ds all in
      elim (dec_lt start (length all)) [
        | no over ↦
            let at : s + start ≡ s + length all = omega (arith, over, bound) in
            inl (record {
              state = record { token = 0; next = 0; memory = m };
              returns =
                  strtok_skipped (s + start) not_empty based skipped
                    (ap m at ∙ text_end m s all text);
              all_delimiters = omega (arith, over, bound);
              no_token = refl;
              same = λ a. refl;
            })
        | yes inside ↦
            let behind = HasText-drop m s start all bound text in
            let count = length-drop start all in
            let found =
              span_from_lem rounds fuel m (s + start) delim false (drop start all) ds
                (omega (arith, count, more)) enough behind chars delim_based in
            let ran =
              strtok_found (s + start) (s + start + size) not_empty based skipped
                (text_inside m s start all inside text) found in
            let bound' = span_length_bound false ds (drop start all) in
            elim (dec_lt (start + size) (length all)) [
              | yes l ↦ inr (inner_cut all ds start size refl refl l text ran)
              | no l ↦ inr (
                  last_cut all ds start size refl refl (omega (arith, l, bound', count, inside))
                    inside text ran)
            ]
      ]
