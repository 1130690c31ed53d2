-- ===== src/Crt/Format/Output.antt =====
-- The bounds of the buffer of `freent_vsnprintf`, freedll/src/crt_format.c.
use free_nt.Base.{
  ℕ, zero, suc, ◌+◌, ◌-◌, ◌≤◌, ◌<◌, min, ◌≡◌, ◌≢◌, refl, ap, ◌∙◌, ℕ_discrete, update_ne,
  update_self, List, [], ◌∷◌, length, get_or, update, ltb, ◌==◌, some, true, false, ℤ, pos, int32,
  u32, ◌^◌, if◌then◌else◌, arith,
}
use free_nt.Crt.Format.Fuel.{print_from_total}
use free_nt.Crt.Format.Print.{OutputCtx, output_char, output_text, print_from, vsnprintf}

-- The context after the characters `out`.
record Put (ctx : OutputCtx) (out : List ℕ) (ctx' : OutputCtx) : Type 0 where
  size_same : ctx'.size ≡ ctx.size
  pos_end : ctx'.pos ≡ min (ctx.pos + length out) ctx.size
  put_at :
      (j : ℕ) → ctx.pos + j < ctx.size → j < length out → ctx'.buffer (ctx.pos + j) ≡ get_or out j 0
  before : (a : ℕ) → a < ctx.pos → ctx'.buffer a ≡ ctx.buffer a
  behind : (a : ℕ) → ctx.size ≤ a → ctx'.buffer a ≡ ctx.buffer a

output_char-size : (ctx : OutputCtx) (c : ℕ) → (output_char ctx c).size ≡ ctx.size
unfolding output_char
output_char-size ctx c = ground arith

output_char-pos :
    (ctx : OutputCtx) (c : ℕ)
    → ctx.pos ≤ ctx.size
    → (output_char ctx c).pos ≡ min (ctx.pos + 1) ctx.size
unfolding output_char
output_char-pos ctx c h = ground arith

output_char-at :
    (ctx : OutputCtx) (c : ℕ) → ctx.pos < ctx.size → (output_char ctx c).buffer ctx.pos ≡ c
unfolding output_char
output_char-at ctx c h = ground arith

output_char-other :
    (ctx : OutputCtx) (c a : ℕ) → a ≢ ctx.pos → (output_char ctx c).buffer a ≡ ctx.buffer a
unfolding output_char
output_char-other ctx c a h = ground arith

output_char-behind :
    (ctx : OutputCtx) (c a : ℕ) → ctx.size ≤ a → (output_char ctx c).buffer a ≡ ctx.buffer a
unfolding output_char
output_char-behind ctx c a h = ground arith

place_cons_at :
    (ctx last : OutputCtx) (c : ℕ) (out : List ℕ) (j : ℕ)
    → Put (output_char ctx c) out last
    → ctx.pos + j < ctx.size
    → j < suc (length out)
    → last.buffer (ctx.pos + j) ≡ get_or (c ∷ out) j 0
place_cons_at ctx last c out zero rest inside within =
    let next = output_char-pos ctx c (omega arith) in
    ap last.buffer {x = ctx.pos + 0} {y = ctx.pos} (omega arith)
    ∙ rest.before ctx.pos (omega (arith, next))
    ∙ output_char-at ctx c (omega arith)
place_cons_at ctx last c out (suc j) rest inside within =
    let next = output_char-pos ctx c (omega arith) in
    ap last.buffer {x = ctx.pos + suc j} {y = (output_char ctx c).pos + j} (omega (arith, next))
    ∙ rest.put_at j (omega (arith, next, output_char-size ctx c)) (omega arith)

-- One character and then the rest.
place_cons :
    (ctx last : OutputCtx) (c : ℕ) (out : List ℕ)
    → ctx.pos ≤ ctx.size
    → Put (output_char ctx c) out last
    → Put ctx (c ∷ out) last
place_cons ctx last c out h rest =
    let size_next = output_char-size ctx c in
    let pos_next = output_char-pos ctx c h in
    record {
      size_same = rest.size_same ∙ size_next;
      pos_end = rest.pos_end ∙ omega (arith, size_next, pos_next);
      put_at = λ j inside within. place_cons_at ctx last c out j rest inside within;
      before = λ a low. elim (ℕ_discrete a ctx.pos) [
        | yes same ↦ absurd (omega (arith, same, low))
        | no other ↦
            rest.before a (omega (arith, pos_next, low, h)) ∙ output_char-other ctx c a other
      ];
      behind = λ a high.
          rest.behind a (omega (arith, size_next, high)) ∙ output_char-behind ctx c a high;
    }

output_text-Put :
    (ctx : OutputCtx) (out : List ℕ) → ctx.pos ≤ ctx.size → Put ctx out (output_text ctx out)
unfolding output_text
output_text-Put ctx [] h = record {
  size_same = refl;
  pos_end = omega arith;
  put_at = λ j h1 h2. absurd (omega arith);
  before = λ a h1. refl;
  behind = λ a h1. refl;
}
output_text-Put ctx (c ∷ out) h = place_cons ctx (output_text (output_char ctx c) out) c out h (
    output_text-Put (output_char ctx c) out
      (omega (arith, output_char-size ctx c, output_char-pos ctx c h)))

-- The result and the buffer after the characters `out` into a buffer of `size` characters.
pub record Printed (out : List ℕ) (size : ℕ) (old : ℕ → ℕ) (result : ℤ) (new : ℕ → ℕ) : Type 0 where
  pub count : result ≡ int32 (u32 (min (length out) size))
  pub small : min (length out) size < 2 ^ 31 → result ≡ pos (min (length out) size)
  pub text : (j : ℕ) → j < min (length out) (size - 1) → new j ≡ get_or out j 0
  pub terminator : new (min (length out) (size - 1)) ≡ 0
  pub frame : (a : ℕ) → size ≤ a → new a ≡ old a

end_index :
    (at n size size' : ℕ)
    → size ≢ 0
    → size' ≡ size
    → at ≡ min n size
    → (if ltb at size' then at else size - 1) ≡ min n (size - 1)
end_index at n size size' h same at_end = ground arith

ended :
    {old : ℕ → ℕ} {size : ℕ} {out : List ℕ} {ctx : OutputCtx}
    → Put (record { buffer = old; size = size; pos = 0 }) out ctx
    → ctx.pos ≡ min (length out) size
ended put = put.pos_end ∙ omega arith

int_small : (n : ℕ) → n < 2 ^ 31 → int32 (u32 n) ≡ pos n
int_small n few =
    let word : u32 n ≡ n = omega arith in
    let low : ltb n (2 ^ 31) ≡ true = ground arith in rw (word, low)

place-Printed :
    (old : ℕ → ℕ) (size : ℕ) (out : List ℕ) (ctx : OutputCtx)
    → size ≢ 0
    → Put (record { buffer = old; size = size; pos = 0 }) out ctx
    → Printed out size old
        (int32 (u32 ctx.pos))
        (update ctx.buffer (if ltb ctx.pos ctx.size then ctx.pos else size - 1) 0)
place-Printed old size out ctx h put =
    rw (end_index ctx.pos (length out) size ctx.size h put.size_same (put.pos_end ∙ omega arith))
      (record {
        count = ap (λ n. int32 (u32 n)) (ended put);
        small = λ few. ap (λ n. int32 (u32 n)) (ended put) ∙ int_small _ few;
        text = λ j low.
            update_ne ctx.buffer 0 (λ same. omega (arith, same, low))
            ∙ ap ctx.buffer {x = j} {y = 0 + j} (omega arith)
            ∙ put.put_at j (omega (arith, low)) (omega (arith, low));
        terminator = update_self ctx.buffer (min (length out) (size - 1)) 0;
        frame = λ a high.
            update_ne ctx.buffer 0 (λ same. omega (arith, same, high, h)) ∙ put.behind a high;
      })

-- A call of `freent_vsnprintf` whose format stands for the characters `out`.
pub record Formats (fuel : ℕ) (slots : ℕ → ℕ) (texts : ℕ → List ℕ) (old : ℕ → ℕ) (size : ℕ)
    (format : List ℕ) : Type 0 where
  pub out : List ℕ
  pub result : ℤ
  pub new : ℕ → ℕ
  pub characters : print_from slots texts fuel format 0 ≡ some out
  pub returns : vsnprintf fuel slots texts old size format ≡ some (result, new)
  pub printed : Printed out size old result new

-- With a size above 0 and fuel above the length of the format, `freent_vsnprintf` returns: the
-- format stands for some characters, the result is their number or, if that is less, the size, as
-- an `int`, which is that number if it is below 2^31; the buffer holds the first size - 1 of them
-- or all if they are fewer, then a NUL, and nothing changes from the size on.
pub vsnprintf-Printed :
    (fuel : ℕ) (slots : ℕ → ℕ) (texts : ℕ → List ℕ) (old : ℕ → ℕ) (size : ℕ) (format : List ℕ)
    → size ≢ 0
    → length format < fuel
    → Formats fuel slots texts old size format
unfolding vsnprintf
vsnprintf-Printed fuel slots texts old size format h enough =
    let (out, same) = print_from_total slots texts fuel format 0 enough in
    let start : OutputCtx = record { buffer = old; size = size; pos = 0 } in
    let ctx = output_text start out in
    let nonempty : (size == 0) ≡ false = ground arith in
    record {
      out = out;
      result = int32 (u32 ctx.pos);
      new = update ctx.buffer (if ltb ctx.pos ctx.size then ctx.pos else size - 1) 0;
      characters = same;
      returns = rw (vsnprintf, nonempty, same) refl;
      printed = place-Printed old size out ctx h (output_text-Put start out (omega arith));
    }
