-- ===== src/Tty/Registry/Chain.antt =====
-- The device list of nttty/tty.c as a list of addresses, and the walk that takes a device out of it.
use free_nt.Base.{
  ℕ, zero, suc, ◌<◌, ◌≡◌, ◌≢◌, ap, ◌∙◌, sym, Bool, true, false, ◌||◌, Bool-cases, inl, inr,
  Option-cases, Option, none, some, List, [], ◌∷◌, arith, ◌==◌, ==_iff, ==_refl, if◌then◌else◌,
  update, update_self, update_ne, length,
}
use free_nt.Tty.Types.{Device}
use free_nt.Tty.Registry.{Ptr, Store, Subsystem, next_link, unlink}

abbrev pub next_field : Option Device → Option Ptr
next_field none = none
next_field (some d) = some d.next

-- The `next` field of the device at an address.
abbrev pub next_of : Store → Ptr → Option Ptr
next_of store p = next_field (store p)

-- All of a device but its place in the list.
abbrev pub unplaced : Option Device → Option Device
unplaced none = none
unplaced (some d) = some (record d { next = 0 })

-- From `p` the `next` pointers lead through the devices at `ps` to NULL.
abbrev pub Chain : Store → Ptr → List Ptr → Type 0
Chain store p [] = p ≡ 0
Chain store p (q ∷ qs) =
    (p ≡ q) × (q ≢ 0) × ((b : Ptr) × (next_of store q ≡ some b) × Chain store b qs)

abbrev pub has : Ptr → List Ptr → Bool
has p [] = false
has p (q ∷ qs) = q == p || has p qs

abbrev pub remove : Ptr → List Ptr → List Ptr
remove p [] = []
remove p (q ∷ qs) = if q == p then qs else q ∷ remove p qs

abbrev pub AllDistinct : List Ptr → Type 0
AllDistinct [] = Unit {0}
AllDistinct (q ∷ qs) = (has q qs ≡ false) × AllDistinct qs

-- A chain is a matter of the `next` fields of its own devices.
pub Chain-ext :
    (s t : Store) (p : Ptr) (ps : List Ptr)
    → ((a : Ptr) → has a ps ≡ true → next_of t a ≡ next_of s a)
    → Chain s p ps
    → Chain t p ps
Chain-ext s t p [] same h = h
Chain-ext s t p (q ∷ qs) same (e, ne, (b, at, rest)) =
    (e, ne, (b, same q (ground arith) ∙ at, Chain-ext s t b qs (λ a m. same a (ground arith)) rest))

-- The store differs at most at the addresses of `ps`.
abbrev pub SameOutside : List Ptr → Store → Store → Type 0
SameOutside ps s t = (a : Ptr) → has a ps ≡ false → t a ≡ s a

-- What the walk leaves when it started at the `next` field of the device at `r`.
pub record Unlinked (g : Subsystem) (r p : Ptr) (ps : List Ptr) (out : Option Subsystem)
    : Type 0 where
  pub after : Store
  pub returns : out ≡ some (record g { store = after })
  pub first : Ptr
  pub held : next_of after r ≡ some first
  pub chain : Chain after first (remove p ps)
  pub same : SameOutside (r ∷ ps) g.store after
  pub keeps : (a : Ptr) → unplaced (after a) ≡ unplaced (g.store a)

pub next_of-some :
    (store : Store) (a b : Ptr)
    → next_of store a ≡ some b
    → (f : Device) × (store a ≡ some f) × (f.next ≡ b)
next_of-some store a b h = elim (Option-cases (store a)) [
  | inl e ↦ absurd (ground arith)
  | inr (f, e) ↦ (f, e, ground arith)
]

pub has-ne : (a b : Ptr) (ps : List Ptr) → has a ps ≡ false → has b ps ≡ true → a ≢ b
has-ne a b [] out m = absurd (cc)
has-ne a b (q ∷ qs) out m = ground (arith, has-ne a b qs)

-- A chain off `a` is untouched by a write at `a`.
pub Chain-update :
    (store : Store) (a p : Ptr) (c : Option Device) (ps : List Ptr)
    → has a ps ≡ false
    → Chain store p ps
    → Chain (update store a c) p ps
Chain-update store a p c ps out h =
    Chain-ext store (update store a c) p ps
      (λ b m. ap next_field (update_ne store c (has-ne a b ps out m))) h

unplaced-update :
    (store : Store) (r a : Ptr) (f : Device) (next : Ptr)
    → store r ≡ some f
    → unplaced (update store r (some (record f { next = next })) a) ≡ unplaced (store a)
unplaced-update store r a f next h = elim (Bool-cases (r == a)) [
  | inl e ↦
      let here : r ≡ a = (==_iff r a).0 e in rw e (sym (ap unplaced (ap store (sym here) ∙ h)))
  | inr e ↦ rw e
]

unlink_here :
    (n : ℕ) (g : Subsystem) (r p next : Ptr) (qs : List Ptr)
    → next_of g.store r ≡ some p
    → p ≢ 0
    → has r qs ≡ false
    → Chain g.store next qs
    → Unlinked g r p (p ∷ qs) (unlink (suc n) g (next_link r) p next)
unfolding unlink
unlink_here n g r p next qs at ne out rest =
    let (f, held, way) = next_of-some g.store r p at in
    record {
      after = update g.store r (some (record f { next = next }));
      returns = ground arith;
      first = next;
      held = ap next_field (update_self g.store r (some (record f { next = next })));
      chain = rw ==_refl (Chain-update g.store r next _ qs out rest);
      same = λ a m. update_ne g.store _ (ground arith);
      keeps = λ a. unplaced-update g.store r a f next held;
    }

pub unlink-Unlinked :
    (fuel : ℕ) (g : Subsystem) (r p next first : Ptr) (ps : List Ptr)
    → next_of g.store r ≡ some first
    → Chain g.store first ps
    → has r ps ≡ false
    → AllDistinct ps
    → has p ps ≡ true
    → next_of g.store p ≡ some next
    → length ps < fuel
    → Unlinked g r p ps (unlink fuel g (next_link r) p next)
unfolding unlink
unlink-Unlinked zero g r p next first ps at h out apart there pd fuel = absurd (omega arith)
unlink-Unlinked (suc n) g r p next first [] at h out apart there pd fuel = absurd (cc)
unlink-Unlinked (suc n) g r p next first (q ∷ qs) at (e, ne, (b, qb, rest)) out (fresh, apart) there
      pd fuel =
    elim (Bool-cases (q == p)) [
      | inl here ↦
          let e' : q ≡ p = (==_iff q p).0 here in
          let same : b ≡ next = cc in
          rw e' (
            unlink_here n g r p next qs (ground arith) (rw e' at ne) (ground arith)
              (rw same at rest))
      | inr other ↦
          let ih =
            unlink-Unlinked n g q p next b qs qb rest fresh apart (ground arith) pd (omega arith) in
          record {
            after = ih.after;
            returns = ground (arith, ih.returns);
            first = first;
            held = ap next_field (ih.same r (ground arith)) ∙ at;
            chain = rw other (e, ne, (ih.first, ih.held, ih.chain));
            same = λ a m. ih.same a (ground arith);
            keeps = ih.keeps;
          }
    ]
