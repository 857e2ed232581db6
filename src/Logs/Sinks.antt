-- ===== src/Logs/Sinks.antt =====
-- What `configure` does to the handlers: it drops those that have the mark.
use mathlib.Core.Path.{ap₂, subst}
use mathlib.Core.List.{append_assoc, append-nil}
use chrome_live.Base.{
  ℕ, ◌+◌, ◌<◌, Bool, true, false, not, List, [], ◌∷◌, ◌++◌, ◌≡◌, refl, ap, ◌∙◌, sym, nat_beq, arith,
  All, All-append, All-map, if◌then◌else◌, Bool-cases, inl, inr,
}
use chrome_live.Logs.{
  Sink, Handler, Logging, remove_handler, drop_handler, drop_marked, make_handler,
}

abbrev same_mark : Bool → Bool → Bool
same_mark true mark = mark
same_mark false mark = not mark

-- the handlers that have the mark, or have it not
unfoldable pub with_mark : Bool → List Handler → List Handler
with_mark mark [] = []
with_mark mark (h ∷ hs) =
    let rest = with_mark mark hs in if same_mark mark h.marked then h ∷ rest else rest

abbrev pub Differs : ℕ → Handler → Type 0
Differs id h = nat_beq h.id id ≡ false

-- no number stands twice
abbrev pub IsUnique : List Handler → Type 0
IsUnique [] = Unit
IsUnique (h ∷ hs) = All (Differs h.id) hs × IsUnique hs

-- Handlers have numbers of their own, below the next one.
pub record IsLogging (s : Logging) : Type 0 where
  pub unique : IsUnique s.handlers
  pub below : All (λ h. h.id < s.made) s.handlers

module _ {ℓ κ} {A : Type ℓ} (P : A → Type κ) (x : A) where
  All-middle : (xs ys : List A) → All P (xs ++ x ∷ ys) → P x
  All-middle [] ys h = h.0
  All-middle (y ∷ xs) ys h = All-middle xs ys h.1

  All-without : (xs ys : List A) → All P (xs ++ x ∷ ys) → All P (xs ++ ys)
  All-without [] ys h = h.1
  All-without (y ∷ xs) ys h = (h.0, All-without xs ys h.1)

remove_handler-middle :
    (h : Handler) (kept hs : List Handler)
    → All (λ g. Differs g.id h) kept
    → remove_handler h.id (kept ++ h ∷ hs) ≡ kept ++ hs
unfolding remove_handler
remove_handler-middle h [] hs d = ground arith
remove_handler-middle h (g ∷ kept) hs d = ground (arith, d, remove_handler-middle h kept hs (d.1))

IsUnique-middle :
    (h : Handler) (kept hs : List Handler)
    → IsUnique (kept ++ h ∷ hs)
    → All (λ g. Differs g.id h) kept
IsUnique-middle h [] hs u = tt
IsUnique-middle h (g ∷ kept) hs u =
    (All-middle (Differs g.id) h kept hs (u.0), IsUnique-middle h kept hs u.1)

IsUnique-without :
    (h : Handler) (kept hs : List Handler) → IsUnique (kept ++ h ∷ hs) → IsUnique (kept ++ hs)
IsUnique-without h [] hs u = u.1
IsUnique-without h (g ∷ kept) hs u =
    (All-without (Differs g.id) h kept hs (u.0), IsUnique-without h kept hs u.1)

pub drop_marked_lem :
    (kept hs : List Handler) (s : Logging)
    → s.handlers ≡ kept ++ hs
    → IsUnique (kept ++ hs)
    → drop_marked hs s
      ≡ record s { handlers = kept ++ with_mark false hs; closed = s.closed ++ with_mark true hs }
unfolding drop_marked with_mark drop_handler
drop_marked_lem kept [] s e u =
    ap₂ (λ (hs : List Handler) (cs : List Handler). record s { handlers = hs; closed = cs }) e
      (sym (append-nil s.closed))
drop_marked_lem kept (h ∷ hs) s e u = elim (Bool-cases h.marked) [
  | inl m ↦ simp (m) (
      drop_marked_lem kept hs (drop_handler h s)
        (ap (remove_handler h.id) e ∙ remove_handler-middle h kept hs (IsUnique-middle h kept hs u))
        (IsUnique-without h kept hs u)
      ∙ ap (λ (cs : List Handler). record s { handlers = kept ++ with_mark false hs; closed = cs })
          (append_assoc s.closed (h ∷ []) (with_mark true hs)))
  | inr m ↦ simp (m) (
      drop_marked_lem (kept ++ h ∷ []) hs s (e ∙ sym (append_assoc kept (h ∷ []) hs))
        (subst IsUnique (sym (append_assoc kept (h ∷ []) hs)) u)
      ∙ ap
          (λ (ks : List Handler). record s {
            handlers = ks;
            closed = s.closed ++ with_mark true hs;
          })
          (append_assoc kept (h ∷ []) (with_mark false hs)))
]

pub with_mark-append :
    (mark : Bool) (xs ys : List Handler)
    → with_mark mark (xs ++ ys) ≡ with_mark mark xs ++ with_mark mark ys
unfolding with_mark
with_mark-append mark [] ys = refl
with_mark-append mark (h ∷ xs) ys = ground (arith, with_mark-append mark xs ys)

pub with_mark-idempotent :
    (xs : List Handler) → with_mark false (with_mark false xs) ≡ with_mark false xs
unfolding with_mark
with_mark-idempotent [] = refl
with_mark-idempotent (h ∷ xs) = ground (arith, with_mark-idempotent xs)

All-if {κ} :
    (P : Handler → Type κ) (b : Bool) (x : Handler) (xs : List Handler)
    → P x
    → All P xs
    → All P (if b then x ∷ xs else xs)
All-if P true x xs h hs = (h, hs)
All-if P false x xs h hs = hs

IsUnique-if :
    (b : Bool) (x : Handler) (xs : List Handler)
    → All (Differs x.id) xs
    → IsUnique xs
    → IsUnique (if b then x ∷ xs else xs)
IsUnique-if true x xs h hs = (h, hs)
IsUnique-if false x xs h hs = hs

pub All-with_mark {κ} :
    (P : Handler → Type κ) (mark : Bool) (xs : List Handler) → All P xs → All P (with_mark mark xs)
unfolding with_mark
All-with_mark P mark [] h = tt
All-with_mark P mark (x ∷ xs) h =
    All-if P (same_mark mark x.marked) x (with_mark mark xs) h.0 (All-with_mark P mark xs h.1)

pub IsUnique-with_mark :
    (mark : Bool) (xs : List Handler) → IsUnique xs → IsUnique (with_mark mark xs)
unfolding with_mark
IsUnique-with_mark mark [] u = tt
IsUnique-with_mark mark (x ∷ xs) u =
    IsUnique-if (same_mark mark x.marked) x (with_mark mark xs)
      (All-with_mark (Differs x.id) mark xs u.0) (IsUnique-with_mark mark xs u.1)

IsUnique-concat :
    (xs : List Handler) (x : Handler)
    → IsUnique xs
    → All (λ h. h.id < x.id) xs
    → IsUnique (xs ++ x ∷ [])
IsUnique-concat [] x u b = (tt, tt)
IsUnique-concat (h ∷ xs) x u b = (
  All-append (Differs h.id) xs (x ∷ []) u.0 (ground (arith, b.0), tt),
  IsUnique-concat xs x u.1 b.1,
)

pub make_handler-IsLogging :
    (sink : Sink) (level : ℕ) (s : Logging) → IsLogging s → IsLogging (make_handler sink level s)
make_handler-IsLogging sink level s i = record {
  unique =
      IsUnique-concat s.handlers (record { id = s.made; sink = sink; level = level; marked = true })
        i.unique i.below;
  below =
      All-append (λ h. h.id < s.made + 1) s.handlers
        (record { id = s.made; sink = sink; level = level; marked = true } ∷ [])
        (All-map (λ h. h.id < s.made) (λ h. h.id < s.made + 1) s.handlers (λ h e. omega (arith, e))
          i.below)
        (omega arith, tt);
}
