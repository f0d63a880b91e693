-- ===== src/Tests/Engine.antt =====
-- An engine that returns rows in insertion order, and a host with a digest of fixed length: both
-- satisfy what the program relies on.
use mathlib.Core.Path.{subst}
use wisetraceloom.Prelude.{
  ℕ, zero, suc, ◌≤◌, ◌≡◌, inl, inr, refl, sym, ap, if◌then◌else◌, Option, none, some, List, [], ◌∷◌,
  ◌++◌, Text, codes, text_Eq, option_Eq, nat_Eq, All, length, arith, leb, Bool-cases, Option-cases,
  decimal, All-weaken, ◌≢◌,
}
use mathlib.Core.List.Perm
use mathlib.Core.List.{Perm, Memᴰ}
use wisetraceloom.Sql.{Sql, IsSorted}
use wisetraceloom.Storage.{Host, naive, aware}

module _ {R : Type 0} (key : R → ℕ) where
  abbrev insert : R → List R → List R
  insert r [] = r ∷ []
  insert r (x ∷ rows) = if leb (key r) (key x) then r ∷ x ∷ rows else x ∷ insert r rows

  abbrev sorted : List R → List R
  sorted [] = []
  sorted (r ∷ rows) = insert r (sorted rows)

  insert_perm : (r : R) (rows : List R) → Perm (insert r rows) (r ∷ rows)
  insert_perm r [] = Perm.refl (r ∷ [])
  insert_perm r (x ∷ rows) = elim (Bool-cases (leb (key r) (key x))) [
    | inl t ↦ rw t (Perm.refl (r ∷ x ∷ rows))
    | inr f ↦ rw f (Perm.trans (Perm.cons x (insert_perm r rows)) (Perm.swap r x rows))
  ]

  pub sorted_perm : (rows : List R) → Perm (sorted rows) rows
  sorted_perm [] = Perm.refl []
  sorted_perm (r ∷ rows) = Perm.trans (insert_perm r (sorted rows)) (Perm.cons r (sorted_perm rows))

  insert-All : (P : R → Type 0) (r : R) (rows : List R) → P r → All P rows → All P (insert r rows)
  insert-All P r [] p h = (p, tt)
  insert-All P r (x ∷ rows) p h = elim (Bool-cases (leb (key r) (key x))) [
    | inl t ↦ rw t (p, h)
    | inr f ↦ rw f (h.0, insert-All P r rows p h.1)
  ]

  insert-IsSorted : (r : R) (rows : List R) → IsSorted key rows → IsSorted key (insert r rows)
  insert-IsSorted r [] h = (tt, tt)
  insert-IsSorted r (x ∷ rows) h = elim (Bool-cases (leb (key r) (key x))) [
    | inl t ↦
        let le : key r ≤ key x = ground arith in
        rw t (
          (le, All-weaken (λ s. key x ≤ key s) (λ s. key r ≤ key s) (λ s m. omega arith) rows h.0),
          h,
        )
    | inr f ↦
        rw f (insert-All (λ s. key x ≤ key s) r rows (ground arith) h.0, insert-IsSorted r rows h.1)
  ]

  pub sorted-IsSorted : (rows : List R) → IsSorted key (sorted rows)
  sorted-IsSorted [] = tt
  sorted-IsSorted (r ∷ rows) = insert-IsSorted r (sorted rows) (sorted-IsSorted rows)

abbrev larger : ℕ → Option ℕ → ℕ
larger n none = n
larger n (some m) = if leb n m then m else n

abbrev largest : List ℕ → Option ℕ
largest [] = none
largest (n ∷ l) = some (larger n (largest l))

All-below : (l : List ℕ) (m k : ℕ) → m ≤ k → All (λ n. n ≤ m) l → All (λ n. n ≤ k) l
All-below l m k le h = All-weaken (λ n. n ≤ m) (λ n. n ≤ k) (λ n b. omega arith) l h

largest-none : (l : List ℕ) → largest l ≡ none → l ≡ []
largest-none [] e = refl
largest-none (n ∷ l) e = cc e

pub largest_bounds : (l : List ℕ) (m : ℕ) → largest l ≡ some m → All (λ n. n ≤ m) l
largest_bounds [] m e = tt
largest_bounds (n ∷ l) m e = elim (Option-cases (largest l)) [
  | inl f ↦
      let empty : l ≡ [] = largest-none l f in
      (ground (arith, f, e), subst (All (λ n. n ≤ m)) (sym empty) tt)
  | inr (k, f) ↦
      (ground (arith, f, e), All-below l k m (ground (arith, f, e)) (largest_bounds l k f))
]

pub largest_mem : (l : List ℕ) (m : ℕ) → largest l ≡ some m → Memᴰ m l
largest_mem [] m e = cc e
largest_mem (n ∷ l) m e = elim (Option-cases (largest l)) [
  | inl f ↦ Memᴰ.head (ground (arith, f, e))
  | inr (k, f) ↦ elim (Bool-cases (leb n k)) [
    | inl t ↦
        let same : m ≡ k = ground (arith, f, e, t) in
        Memᴰ.tail (subst (λ z. Memᴰ z l) (sym same) (largest_mem l k f))
    | inr g ↦ Memᴰ.head (ground (arith, f, e, g))
  ]
]

pub largest-cons : (n : ℕ) (l : List ℕ) → largest (n ∷ l) ≢ none
largest-cons n l e = cc e

abbrev pub engine : Sql
engine = record {
  arrange = λ R rows. rows;
  arrange_perm = λ R rows. Perm.refl rows;
  order_by = λ R. sorted;
  order_by_perm = λ R. sorted_perm;
  order_by_sorted = λ R. sorted-IsSorted;
  max = largest;
  max_nil = refl;
  max_cons = largest-cons;
  max_bounds = largest_bounds;
  max_mem = largest_mem;
}

-- The first 64 characters, filled up with spaces.
abbrev resize : ℕ → Text → Text
resize zero t = []
resize (suc n) [] = 32 ∷ resize n []
resize (suc n) (c ∷ t) = c ∷ resize n t

pub length-resize : (n : ℕ) (t : Text) → length (resize n t) ≡ n
length-resize zero t = refl
length-resize (suc n) [] = ap suc (length-resize n [])
length-resize (suc n) (c ∷ t) = ap suc (length-resize n t)

abbrev pub digest : Text → Text
digest = resize 64

abbrev pub machine : Host
machine = record {
  sql = engine;
  sha256 = digest;
  length-sha256 = length-resize 64;
  isoformat = λ t. elim t [ naive n ↦ decimal n | aware n ↦ decimal n ++ codes "+00:00" ];
  Payload = Text;
  dumps = λ t. t;
  loads = λ t. t;
}
