-- ===== src/Python/Order.antt =====
-- The order of what the Python reference compares: `int`, `bytes` and tuples of these. A tuple is
-- compared at the first place where two differ.
use ma2a.Base.{
  ◌≡◌, refl, ◌↔◌, Bool, true, false, Bytes, [], ◌∷◌, ltb, ◌==◌, if◌then◌else◌, bytes_eq,
  bytes_eq_iff, arith,
}
use ma2a.Base.Int.{ℤ, pos, negsuc}
use ma2a.Python.{text_lt}

-- `<` on `int`
abbrev pub ltb_ℤ : ℤ → ℤ → Bool
ltb_ℤ (pos a) (pos b) = ltb a b
ltb_ℤ (pos a) (negsuc b) = false
ltb_ℤ (negsuc a) (pos b) = true
ltb_ℤ (negsuc a) (negsuc b) = ltb b a

-- `==` on `int`
abbrev pub eq_ℤ : ℤ → ℤ → Bool
eq_ℤ (pos a) (pos b) = a == b
eq_ℤ (pos a) (negsuc b) = false
eq_ℤ (negsuc a) (pos b) = false
eq_ℤ (negsuc a) (negsuc b) = a == b

-- `==` and `<` of one type, which order it totally.
pub record TotalOrder (A : Type 0) : Type 0 where
  pub eq : A → A → Bool
  pub lt : A → A → Bool
  pub eq_iff : (a b : A) → (eq a b ≡ true) ↔ (a ≡ b)
  pub irreflexive : (a : A) → lt a a ≡ false
  pub transitive : (a b c : A) → lt a b ≡ true → lt b c ≡ true → lt a c ≡ true
  pub connected : (a b : A) → lt a b ≡ false → lt b a ≡ false → a ≡ b

pub eq_ℤ_iff : (a b : ℤ) → (eq_ℤ a b ≡ true) ↔ (a ≡ b)
eq_ℤ_iff a b = ground arith

pub ltb_ℤ_irreflexive : (a : ℤ) → ltb_ℤ a a ≡ false
ltb_ℤ_irreflexive a = ground arith

pub ltb_ℤ_transitive : (a b c : ℤ) → ltb_ℤ a b ≡ true → ltb_ℤ b c ≡ true → ltb_ℤ a c ≡ true
ltb_ℤ_transitive a b c h k = ground arith

pub ltb_ℤ_connected : (a b : ℤ) → ltb_ℤ a b ≡ false → ltb_ℤ b a ≡ false → a ≡ b
ltb_ℤ_connected a b h k = ground arith

abbrev pub int_order : TotalOrder ℤ
int_order = record {
  eq = eq_ℤ;
  lt = ltb_ℤ;
  eq_iff = eq_ℤ_iff;
  irreflexive = ltb_ℤ_irreflexive;
  transitive = ltb_ℤ_transitive;
  connected = ltb_ℤ_connected;
}

pub text_lt_irreflexive : (s : Bytes) → text_lt s s ≡ false
unfolding text_lt
text_lt_irreflexive [] = refl
text_lt_irreflexive (c ∷ s) = ground (arith, text_lt_irreflexive s)

pub text_lt_transitive :
    (s t u : Bytes) → text_lt s t ≡ true → text_lt t u ≡ true → text_lt s u ≡ true
unfolding text_lt
text_lt_transitive [] [] u h k = ground arith
text_lt_transitive [] (d ∷ t) [] h k = ground arith
text_lt_transitive [] (d ∷ t) (e ∷ u) h k = refl
text_lt_transitive (c ∷ s) [] u h k = ground arith
text_lt_transitive (c ∷ s) (d ∷ t) [] h k = ground arith
text_lt_transitive (c ∷ s) (d ∷ t) (e ∷ u) h k = ground (arith, text_lt_transitive s t u)

pub text_lt_connected : (s t : Bytes) → text_lt s t ≡ false → text_lt t s ≡ false → s ≡ t
unfolding text_lt
text_lt_connected [] [] h k = refl
text_lt_connected [] (d ∷ t) h k = ground arith
text_lt_connected (c ∷ s) [] h k = ground arith
text_lt_connected (c ∷ s) (d ∷ t) h k = ground (arith, text_lt_connected s t)

abbrev pub bytes_order : TotalOrder Bytes
bytes_order = record {
  eq = bytes_eq;
  lt = text_lt;
  eq_iff = bytes_eq_iff;
  irreflexive = text_lt_irreflexive;
  transitive = text_lt_transitive;
  connected = text_lt_connected;
}

module _ {A B : Type 0} (first : TotalOrder A) (rest : TotalOrder B) where
  abbrev pub tuple_eq : A × B → A × B → Bool
  tuple_eq (a, b) (c, d) = if first.eq a c then rest.eq b d else false

  -- `<` on a tuple
  abbrev pub tuple_lt : A × B → A × B → Bool
  tuple_lt (a, b) (c, d) = if first.eq a c then rest.lt b d else first.lt a c

  pub tuple_eq_iff : (p q : A × B) → (tuple_eq p q ≡ true) ↔ (p ≡ q)
  tuple_eq_iff (a, b) (c, d) = ground (arith, first.eq_iff a c, rest.eq_iff b d)

  pub tuple_lt_irreflexive : (p : A × B) → tuple_lt p p ≡ false
  tuple_lt_irreflexive (a, b) = ground (arith, first.eq_iff a a, rest.irreflexive b)

  pub tuple_lt_transitive :
      (p q r : A × B) → tuple_lt p q ≡ true → tuple_lt q r ≡ true → tuple_lt p r ≡ true
  tuple_lt_transitive (a, b) (c, d) (e, f) h k = ground (
    arith,
    first.eq_iff a c,
    first.eq_iff c e,
    first.eq_iff a e,
    first.irreflexive a,
    first.transitive a c e,
    first.transitive c a c,
    rest.transitive b d f,
  )

  pub tuple_lt_connected : (p q : A × B) → tuple_lt p q ≡ false → tuple_lt q p ≡ false → p ≡ q
  tuple_lt_connected (a, b) (c, d) h k =
      ground (arith, first.eq_iff a c, first.eq_iff c a, first.connected a c, rest.connected b d)

  abbrev pub tuple_order : TotalOrder (A × B)
  tuple_order = record {
    eq = tuple_eq;
    lt = tuple_lt;
    eq_iff = tuple_eq_iff;
    irreflexive = tuple_lt_irreflexive;
    transitive = tuple_lt_transitive;
    connected = tuple_lt_connected;
  }
