-- ===== src/Repository/Order.antt =====
-- The order of the rows that the queries of message_repository.go find: newest first.
use mathlib.Core.List.{Permᴰ}
use mathlib.Core.List.Permᴰ
use digital_square.Base.{
  ℕ, ◌≤◌, ◌≡◌, ◌≢◌, inl, inr, refl, sym, ap, subst, ◌∙◌, Bool-cases, Bool, false, ◌&&◌, List, [],
  ◌∷◌, keep, All, All-imp, All-take, leb, ltb, arith, if◌then◌else◌,
}
use digital_square.Base.Pairs.{All-Perm, All-map, AllPairs}
use digital_square.Models.{Message}
use digital_square.Repository.{bare, IsNewestFirst, IsNewest, older, is_visible}

abbrev pub IsOther : Message → Message → Type 0
IsOther a b = a.created_at ≢ b.created_at

IsOther-Perm : {xs ys : List Message} → Permᴰ xs ys → AllPairs IsOther xs → AllPairs IsOther ys
IsOther-Perm Permᴰ.nil h = tt
IsOther-Perm (Permᴰ.cons {a} {b} {l₂} e p) (h, hs) =
    (subst (λ x. All (IsOther x) l₂) e (All-Perm (IsOther a) p h), IsOther-Perm p hs)
IsOther-Perm (Permᴰ.swap {l} e f) ((h, hs), (k, ks)) = (
  (
    λ same. h (ap (λ m. m.created_at) e ∙ sym same ∙ sym (ap (λ m. m.created_at) f)),
    subst (λ x. All (IsOther x) l) f k,
  ),
  (subst (λ x. All (IsOther x) l) e hs, ks),
)
IsOther-Perm (Permᴰ.trans p q) h = IsOther-Perm q (IsOther-Perm p h)

-- Insertion sort, a row before those of its time.
unfoldable pub insert_newest : Message → List Message → List Message
insert_newest x [] = x ∷ []
insert_newest x (y ∷ ys) =
    let rest = insert_newest x ys in if leb y.created_at x.created_at then x ∷ y ∷ ys else y ∷ rest

unfoldable pub sort_newest : List Message → List Message
sort_newest [] = []
sort_newest (x ∷ xs) = insert_newest x (sort_newest xs)

insert_comm :
    (x y : Message) (zs : List Message)
    → IsOther x y
    → insert_newest x (insert_newest y zs) ≡ insert_newest y (insert_newest x zs)
unfolding insert_newest
insert_comm x y [] h = ground arith
insert_comm x y (z ∷ zs) h = let rest = insert_comm x y zs h in ground (arith, rest)

sort_newest-Perm-eq :
    {xs ys : List Message} → Permᴰ xs ys → AllPairs IsOther xs → sort_newest xs ≡ sort_newest ys
unfolding sort_newest
sort_newest-Perm-eq Permᴰ.nil h = refl
sort_newest-Perm-eq (Permᴰ.cons e p) (h, hs) = λ i. insert_newest (e i) (sort_newest-Perm-eq p hs i)
sort_newest-Perm-eq (Permᴰ.swap {a} {b} {l} e f) ((h, hs), (k, ks)) =
    insert_comm a b (sort_newest l) h ∙ λ i.
    insert_newest (f i) (insert_newest (e i) (sort_newest l))
sort_newest-Perm-eq (Permᴰ.trans p q) h =
    sort_newest-Perm-eq p h ∙ sort_newest-Perm-eq q (IsOther-Perm p h)

insert_first :
    (x : Message) (xs : List Message)
    → All (λ r. r.created_at ≤ x.created_at) xs
    → insert_newest x xs ≡ x ∷ xs
unfolding insert_newest
insert_first x [] h = refl
insert_first x (y ∷ ys) (p, h) = ground arith

sort_sorted : (xs : List Message) → IsNewestFirst xs → sort_newest xs ≡ xs
unfolding sort_newest
sort_sorted [] h = refl
sort_sorted (x ∷ xs) (p, h) = rw (sort_sorted xs h) (insert_first x xs p)

-- Rows of different times have one arrangement.
pub newest_unique :
    (xs ys : List Message)
    → Permᴰ xs ys
    → AllPairs IsOther xs
    → IsNewestFirst xs
    → IsNewestFirst ys
    → ys ≡ xs
newest_unique xs ys p other hx hy =
    sym (sort_sorted ys hy) ∙ sym (sort_newest-Perm-eq p other) ∙ sort_sorted xs hx

insert-Perm : (x : Message) (xs : List Message) → Permᴰ (x ∷ xs) (insert_newest x xs)
unfolding insert_newest
insert-Perm x [] = Permᴰ.cons refl Permᴰ.nil
insert-Perm x (y ∷ ys) = elim (Bool-cases (leb y.created_at x.created_at)) [
  | inl p ↦ rw p (Permᴰ.refl (x ∷ y ∷ ys))
  | inr p ↦ rw p (Permᴰ.trans (Permᴰ.swap refl refl) (Permᴰ.cons refl (insert-Perm x ys)))
]

pub sort_newest-Perm : (xs : List Message) → Permᴰ xs (sort_newest xs)
unfolding sort_newest
sort_newest-Perm [] = Permᴰ.nil
sort_newest-Perm (x ∷ xs) =
    Permᴰ.trans (Permᴰ.cons refl (sort_newest-Perm xs)) (insert-Perm x (sort_newest xs))

insert-IsNewestFirst :
    (x : Message) (xs : List Message) → IsNewestFirst xs → IsNewestFirst (insert_newest x xs)
unfolding insert_newest
insert-IsNewestFirst x [] h = (tt, tt)
insert-IsNewestFirst x (y ∷ ys) (p, h) = elim (Bool-cases (leb y.created_at x.created_at)) [
  | inl q ↦ rw q ((ground (arith, q), All-imp _ _ (λ r s. ground (arith, q)) ys p), (p, h))
  | inr q ↦ rw q (All-Perm _ (insert-Perm x ys) (ground (arith, q), p), insert-IsNewestFirst x ys h)
]

pub sort_newest-IsNewestFirst : (xs : List Message) → IsNewestFirst (sort_newest xs)
unfolding sort_newest
sort_newest-IsNewestFirst [] = tt
sort_newest-IsNewestFirst (x ∷ xs) =
    insert-IsNewestFirst x (sort_newest xs) (sort_newest-IsNewestFirst xs)

keep-visible :
    (p : Message → Bool) (rows : List Message)
    → All (λ row. row.deleted_at.valid ≡ false) (keep (λ row. is_visible row && p row) rows)
keep-visible p [] = tt
keep-visible p (row ∷ rows) = elim (Bool-cases (is_visible row && p row)) [
  | inl q ↦ rw q (ground arith, keep-visible p rows)
  | inr q ↦ rw q (keep-visible p rows)
]

-- What a query for older messages finds is not deleted.
pub IsNewest-visible :
    (limit before : ℕ) (rows found : List Message)
    → IsNewest limit (older before rows) found
    → All (λ row. row.deleted_at.valid ≡ false) found
IsNewest-visible limit before rows found (ordered, p, sorted, taken) =
    let P : Message → Type 0 = λ row. row.deleted_at.valid ≡ false in
    let visible = keep-visible (λ row. ltb row.id before) rows in
    let all =
      (All-map bare P ordered).0 (All-Perm P p ((All-map bare P (older before rows)).1 visible)) in
    subst (All P) (sym taken) (All-take P limit ordered all)
