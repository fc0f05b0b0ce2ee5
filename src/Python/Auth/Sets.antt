-- ===== src/Python/Auth/Sets.antt =====
-- `sorted(set(texts))` of the Python reference.
use ma2a.Base.{
  ◌≡◌, refl, sym, subst, inl, inr, ◌↔◌, true, false, All, bytes_eq, bytes_eq_iff, List, [], ◌∷◌,
  arith,
}
use ma2a.Python.{Text, text_lt}
use ma2a.Python.Order.{text_lt_irreflexive, text_lt_transitive, text_lt_connected}
use ma2a.Python.Auth.{insert_text, sorted_set}
use ma2a.Python.Auth.Certificates.{Listed}

Listed-insert_text : (t u : Text) (us : List Text) → Listed t (u ∷ us) → Listed t (insert_text u us)
unfolding insert_text
Listed-insert_text t u [] h = h
Listed-insert_text t u (v ∷ us) h = ground (arith, bytes_eq_iff u v, Listed-insert_text t u us)

-- Sorting and merging equal texts loses none.
pub Listed-sorted_set : (t : Text) (us : List Text) → Listed t us → Listed t (sorted_set us)
unfolding sorted_set
Listed-sorted_set t [] h = h
Listed-sorted_set t (u ∷ us) (inl e) = Listed-insert_text t u (sorted_set us) (inl e)
Listed-sorted_set t (u ∷ us) (inr h) =
    Listed-insert_text t u (sorted_set us) (inr (Listed-sorted_set t us h))

Listed-insert_text_inv :
    (t u : Text) (us : List Text) → Listed t (insert_text u us) → Listed t (u ∷ us)
unfolding insert_text
Listed-insert_text_inv t u [] h = h
Listed-insert_text_inv t u (v ∷ us) h =
    ground (arith, bytes_eq_iff u v, Listed-insert_text_inv t u us)

pub Listed-sorted_set_inv : (t : Text) (us : List Text) → Listed t (sorted_set us) → Listed t us
unfolding sorted_set
Listed-sorted_set_inv t [] h = h
Listed-sorted_set_inv t (u ∷ us) h = elim (Listed-insert_text_inv t u (sorted_set us) h) [
  | inl e ↦ inl e
  | inr h ↦ inr (Listed-sorted_set_inv t us h)
]

abbrev Above : Text → List Text → Type 0
Above t = All (λ u. text_lt t u ≡ true)

-- Every text is below those behind it.
abbrev pub IsAscending : List Text → Type 0
IsAscending [] = Unit
IsAscending (t ∷ ts) = Above t ts × IsAscending ts

Above-trans : (t u : Text) (us : List Text) → text_lt t u ≡ true → Above u us → Above t us
Above-trans t u [] h a = tt
Above-trans t u (v ∷ us) h (k, a) = (text_lt_transitive t u v h k, Above-trans t u us h a)

Above-insert_text :
    (a t : Text) (us : List Text) → text_lt a t ≡ true → Above a us → Above a (insert_text t us)
unfolding insert_text
Above-insert_text a t [] h k = (h, tt)
Above-insert_text a t (u ∷ us) h (k, ks) = ground (arith, Above-insert_text a t us)

text_lt_other : (t u : Text) → text_lt t u ≡ false → bytes_eq t u ≡ false → text_lt u t ≡ true
text_lt_other t u h k = ground (arith, text_lt_connected t u, bytes_eq_iff t u)

insert_text-IsAscending :
    (t : Text) (us : List Text) → IsAscending us → IsAscending (insert_text t us)
unfolding insert_text
insert_text-IsAscending t [] h = (tt, tt)
insert_text-IsAscending t (u ∷ us) (a, h) = ground (
  arith,
  Above-trans t u us,
  text_lt_other t u,
  Above-insert_text u t us,
  insert_text-IsAscending t us h,
)

pub sorted_set-IsAscending : (us : List Text) → IsAscending (sorted_set us)
unfolding sorted_set
sorted_set-IsAscending [] = tt
sorted_set-IsAscending (u ∷ us) =
    insert_text-IsAscending u (sorted_set us) (sorted_set-IsAscending us)

-- The same texts are listed.
abbrev pub SameTexts : List Text → List Text → Type 0
SameTexts ts us = (t : Text) → Listed t ts ↔ Listed t us

Above-Listed : (t u : Text) (us : List Text) → Above t us → Listed u us → text_lt t u ≡ true
Above-Listed t u [] a h = absurd h
Above-Listed t u (v ∷ us) (k, a) (inl e) = rw e k
Above-Listed t u (v ∷ us) (k, a) (inr h) = Above-Listed t u us a h

heads_eq :
    (t u : Text) (ts us : List Text)
    → IsAscending (t ∷ ts)
    → IsAscending (u ∷ us)
    → Listed t (u ∷ us)
    → Listed u (t ∷ ts)
    → t ≡ u
heads_eq t u ts us (a, _) (b, _) (inl e) k = e
heads_eq t u ts us (a, _) (b, _) (inr h) (inl e) = sym e
heads_eq t u ts us (a, _) (b, _) (inr h) (inr k) = ground (
  arith,
  Above-Listed u t us b h,
  Above-Listed t u ts a k,
  text_lt_transitive t u t,
  text_lt_irreflexive t,
)

tail-Listed :
    (t v : Text) (ts us : List Text)
    → IsAscending (t ∷ ts)
    → (Listed v (t ∷ ts) → Listed v (t ∷ us))
    → Listed v ts
    → Listed v us
tail-Listed t v ts us (a, _) sub h = elim (sub (inr h)) [
  | inl e ↦ let above = Above-Listed t v ts a h in absurd (ground (arith, text_lt_irreflexive t))
  | inr k ↦ k
]

ascending_unique : (ts us : List Text) → IsAscending ts → IsAscending us → SameTexts ts us → ts ≡ us
ascending_unique [] [] a b same = refl
ascending_unique [] (u ∷ us) a b same = absurd ((same u).1 (inl refl))
ascending_unique (t ∷ ts) [] a b same = absurd ((same t).0 (inl refl))
ascending_unique (t ∷ ts) (u ∷ us) a b same =
    let e : t ≡ u = heads_eq t u ts us a b ((same t).0 (inl refl)) ((same u).1 (inl refl)) in
    let b' : IsAscending (t ∷ us) = subst (λ (x : Text). IsAscending (x ∷ us)) (sym e) b in
    let same' : SameTexts (t ∷ ts) (t ∷ us) =
      subst (λ (x : Text). SameTexts (t ∷ ts) (x ∷ us)) (sym e) same in
    let rest =
      ascending_unique ts us a.1 b.1
        (λ v. (tail-Listed t v ts us a (same' v).0, tail-Listed t v us ts b' (same' v).1)) in
    cc

-- It depends only on which texts there are, neither on their order nor on how often they stand.
pub sorted_set-SameTexts : (ts us : List Text) → SameTexts ts us → sorted_set ts ≡ sorted_set us
sorted_set-SameTexts ts us same =
    ascending_unique (sorted_set ts) (sorted_set us) (sorted_set-IsAscending ts)
      (sorted_set-IsAscending us)
      λ t. (
        λ h. Listed-sorted_set t us ((same t).0 (Listed-sorted_set_inv t ts h)),
        λ h. Listed-sorted_set t ts ((same t).1 (Listed-sorted_set_inv t us h)),
      )
