-- ===== src/Prelude/Maps.antt =====
-- A JavaScript `Map`: an association list in insertion order.
use mathlib.Core.List.{
  Mem, Perm, perm-cons, mem-cons_of_mem, mem-cons_self, not-mem-nil, mem_of_ne_of_mem,
}
use mathlib.Core.List.Perm
use truthbounty_api.Prelude.{
  suc, ◌≡◌, refl, ap, ◌∙◌, ◌≢◌, inl, inr, Option, none, some, List, [], ◌∷◌, ◌++◌, arith, Eq, ◌===◌,
  beq_refl, eq_of_beq, if◌then◌else◌, length, Bool-cases,
}

abbrev pub JsMap {ℓ κ} : Type ℓ → Type κ → Type (ℓ ⊔ κ)
JsMap K V = List (K × V)

some_not_none {ℓ} : {V : Type ℓ} {v : V} {o : Option V} → o ≡ some v → o ≡ none → ⊥
some_not_none e h = cc

module _ {ℓ κ} {K : Type ℓ} {V : Type κ} where
  abbrev pub keys : JsMap K V → List K
  keys [] = []
  keys ((j, v) ∷ m) = j ∷ keys m

  abbrev pub values : JsMap K V → List V
  values [] = []
  values ((j, v) ∷ m) = v ∷ values m

module _ {ℓ κ} {K : Type ℓ} {V : Type κ} ⦃e : Eq K⦄ where
  -- `m.get(k)`
  abbrev pub get : K → JsMap K V → Option V
  get k [] = none
  get k ((j, v) ∷ m) = if j === k then some v else get k m

  -- `m.set(k, v)`: an old key keeps its place.
  abbrev pub put : K → V → JsMap K V → JsMap K V
  put k v [] = (k, v) ∷ []
  put k v ((j, w) ∷ m) = if j === k then (k, v) ∷ m else (j, w) ∷ put k v m

  -- `m.delete(k)`
  abbrev pub delete : K → JsMap K V → JsMap K V
  delete k [] = []
  delete k ((j, w) ∷ m) = if j === k then m else (j, w) ∷ delete k m

  -- The objects under each key of a list, deleted one after the other.
  abbrev pub delete_all : List K → JsMap K V → JsMap K V
  delete_all [] m = m
  delete_all (k ∷ ks) m = delete_all ks (delete k m)

  pub get-put :
      (k j : K) (v : V) (m : JsMap K V) → get j (put k v m) ≡ (if k === j then some v else get j m)
  get-put k j v [] = refl
  get-put k j v ((i, w) ∷ m) =
      ground (arith, e.beq_iff k j, e.beq_iff i k, e.beq_iff i j, get-put k j v m)

  pub get-put_self : (k : K) (v : V) (m : JsMap K V) → get k (put k v m) ≡ some v
  get-put_self k v m = ground (arith, get-put k k v m, beq_refl k)

  pub get-delete_ne : (k j : K) (m : JsMap K V) → k ≢ j → get j (delete k m) ≡ get j m
  get-delete_ne k j [] h = refl
  get-delete_ne k j ((i, w) ∷ m) h =
      ground (arith, e.beq_iff i k, e.beq_iff i j, get-delete_ne k j m h)

  -- Every key stands once.
  abbrev pub IsMap : JsMap K V → Type (ℓ ⊔ κ)
  IsMap [] = Unit
  IsMap ((k, v) ∷ m) = (get k m ≡ none) × IsMap m

  pub put-IsMap : (k : K) (v : V) (m : JsMap K V) → IsMap m → IsMap (put k v m)
  put-IsMap k v [] h = (refl, tt)
  put-IsMap k v ((j, w) ∷ m) h =
      ground (arith, put-IsMap k v m h.1, get-put k j v m, e.beq_iff j k, e.beq_iff k j)

  pub delete-IsMap : (k : K) (m : JsMap K V) → IsMap m → IsMap (delete k m)
  delete-IsMap k [] h = tt
  delete-IsMap k ((j, w) ∷ m) h =
      ground (arith, delete-IsMap k m h.1, get-delete_ne k j m, e.beq_iff j k)

  pub get-delete_self : (k : K) (m : JsMap K V) → IsMap m → get k (delete k m) ≡ none
  get-delete_self k [] h = refl
  get-delete_self k ((j, w) ∷ m) h = ground (arith, get-delete_self k m h.1, e.beq_iff j k)

  pub delete_all-IsMap : (ks : List K) (m : JsMap K V) → IsMap m → IsMap (delete_all ks m)
  delete_all-IsMap [] m h = h
  delete_all-IsMap (k ∷ ks) m h = delete_all-IsMap ks (delete k m) (delete-IsMap k m h)

  pub get-delete_all_ne :
      (ks : List K) (j : K) (m : JsMap K V) → ¬ Mem j ks → get j (delete_all ks m) ≡ get j m
  get-delete_all_ne [] j m h = refl
  get-delete_all_ne (k ∷ ks) j m h =
      get-delete_all_ne ks j (delete k m) (λ i. h (mem-cons_of_mem k i))
      ∙ get-delete_ne k j m (λ p. h (rw p mem-cons_self))

  keys-delete : (k : K) (m : JsMap K V) → Mem k (keys m) → Perm (keys m) (k ∷ keys (delete k m))
  keys-delete k [] h = absurd (not-mem-nil h)
  keys-delete k ((j, w) ∷ m) h = elim (Bool-cases (j === k)) [
    | inl same ↦ rw same (Perm.cons' ((e.beq_iff j k).0 same) Perm.rfl)
    | inr other ↦ rw other (
        Perm.trans
          (Perm.cons j (keys-delete k m (mem_of_ne_of_mem (λ p. cc (beq_refl k, other, p)) h)))
          (Perm.swap k j _))
  ]

  -- Deleting keys that the map has leaves the others.
  pub keys-delete_all :
      (ks rest : List K) (m : JsMap K V)
      → Perm (keys m) (ks ++ rest)
      → Perm (keys (delete_all ks m)) rest
  keys-delete_all [] rest m h = h
  keys-delete_all (k ∷ ks) rest m h = keys-delete_all ks rest (delete k m) (
      (perm-cons k).0
        (Perm.trans (Perm.symm (keys-delete k m (Perm.subset (Perm.symm h) k mem-cons_self))) h))

  pub length-keys : (m : JsMap K V) → length (keys m) ≡ length m
  length-keys [] = refl
  length-keys ((k, v) ∷ m) = ap suc (length-keys m)

  pub get-middle :
      (k : K) (v : V) (m n : JsMap K V) → get k m ≡ none → get k (m ++ ((k, v) ∷ n)) ≡ some v
  get-middle k v [] n h = rw (beq_refl k) refl
  get-middle k v ((j, w) ∷ m) n h = elim (Bool-cases (j === k)) [
    | inl same ↦ cc (rw same at h)
    | inr other ↦ rw other (get-middle k v m n (rw other at h))
  ]

  pub put-middle :
      (k : K) (v w : V) (m n : JsMap K V)
      → get k m ≡ none
      → put k w (m ++ ((k, v) ∷ n)) ≡ m ++ ((k, w) ∷ n)
  put-middle k v w [] n h = rw (beq_refl k) refl
  put-middle k v w ((j, u) ∷ m) n h = elim (Bool-cases (j === k)) [
    | inl same ↦ cc (rw same at h)
    | inr other ↦ rw other (ap (◌∷◌ (j, u)) (put-middle k v w m n (rw other at h)))
  ]

  -- A key that stands further on does not stand before.
  pub get-before : (k : K) (v : V) (m n : JsMap K V) → IsMap (m ++ ((k, v) ∷ n)) → get k m ≡ none
  get-before k v [] n h = refl
  get-before k v ((j, w) ∷ m) n h = elim (Bool-cases (j === k)) [
    | inl same ↦
        let missing : get k (m ++ ((k, v) ∷ n)) ≡ none = rw (eq_of_beq j k same) at (h.0) in
        absurd (some_not_none (get-middle k v m n (get-before k v m n h.1)) missing)
    | inr other ↦ rw other (get-before k v m n h.1)
  ]
