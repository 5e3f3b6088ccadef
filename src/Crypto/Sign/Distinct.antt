-- ===== src/Crypto/Sign/Distinct.antt =====
-- Looking up an attribute by its object identifier, where no two attributes share one.
use blapki.Prelude.{
  String, Bool, true, not, ◌&&◌, ◌≡◌, ◌≢◌, sym, ap, ◌∙◌, inl, inr, none, some, List, [], ◌∷◌, map,
  any, Some, Option-cases, arith, eq_iff, ◌==◌,
}
use blapki.Crates.{Attribute}
use blapki.Scep.Attributes.{find_attr}

abbrev pub In : Attribute → List Attribute → Type 0
In x = Some (λ y. y ≡ x)

abbrev pub all_distinct : List String → Bool
all_distinct [] = true
all_distinct (s ∷ more) = not (any (λ t. t == s) more) && all_distinct more

abbrev pub oids : List Attribute → List String
oids = map (λ a. a.oid)

pub any-oid :
    (x : Attribute) (xs : List Attribute) (oid : String)
    → In x xs
    → x.oid ≡ oid
    → any (λ t. t == oid) (oids xs) ≡ true
any-oid x [] oid h e = absurd h
any-oid x (y ∷ xs) oid (inl h) e = ground (arith, ap (λ a. a.oid) h, eq_iff y.oid oid)
any-oid x (y ∷ xs) oid (inr h) e = ground (arith, any-oid x xs oid h e)

In-unique :
    (x y : Attribute) (xs : List Attribute)
    → all_distinct (oids xs) ≡ true
    → In x xs
    → In y xs
    → x.oid ≡ y.oid
    → x ≡ y
In-unique x y [] d h k e = absurd h
In-unique x y (z ∷ xs) d (inl h) (inl k) e = sym h ∙ k
In-unique x y (z ∷ xs) d (inl h) (inr k) e =
    let same : y.oid ≡ z.oid = sym e ∙ sym (ap (λ a. a.oid) h) in
    absurd (ground (arith, any-oid y xs z.oid k same))
In-unique x y (z ∷ xs) d (inr h) (inl k) e =
    let same : x.oid ≡ z.oid = e ∙ sym (ap (λ a. a.oid) k) in
    absurd (ground (arith, any-oid x xs z.oid h same))
In-unique x y (z ∷ xs) d (inr h) (inr k) e = In-unique x y xs (ground arith) h k e

pub find_attr-some :
    (xs : List Attribute) (oid : String) (x : Attribute)
    → find_attr xs oid ≡ some x
    → In x xs × (x.oid ≡ oid)
unfolding find_attr
find_attr-some [] oid x h = absurd (ground arith)
find_attr-some (y ∷ xs) oid x h = ground (arith, eq_iff y.oid oid, find_attr-some xs oid x)

pub find_attr-none :
    (xs : List Attribute) (oid : String) (x : Attribute)
    → find_attr xs oid ≡ none
    → In x xs
    → x.oid ≢ oid
unfolding find_attr
find_attr-none [] oid x h k e = absurd k
find_attr-none (y ∷ xs) oid x h (inl k) e =
    absurd (ground (arith, ap (λ a. a.oid) k, eq_iff y.oid oid))
find_attr-none (y ∷ xs) oid x h (inr k) e =
    find_attr-none xs oid x (ground (arith, eq_iff y.oid oid)) k e

-- What is found among attributes with distinct identifiers is found in every list that has them and,
-- beside them, only attributes with other identifiers.
pub find_attr-same :
    (xs ys : List Attribute) (oid : String)
    → all_distinct (oids xs) ≡ true
    → ((x : Attribute) → In x xs → In x ys)
    → ((y : Attribute) → In y ys → y.oid ≡ oid → In y xs)
    → find_attr ys oid ≡ find_attr xs oid
find_attr-same xs ys oid d into back = elim (Option-cases (find_attr xs oid)) [
  | inl h ↦ elim (Option-cases (find_attr ys oid)) [
    | inl k ↦ k ∙ sym h
    | inr (y, k) ↦
        let (is_in, e) = find_attr-some ys oid y k in
        absurd (find_attr-none xs oid y h (back y is_in e) e)
  ]
  | inr (x, h) ↦
      let (x_in, e) = find_attr-some xs oid x h in
      elim (Option-cases (find_attr ys oid)) [
        | inl k ↦ absurd (find_attr-none ys oid x k (into x x_in) e)
        | inr (y, k) ↦
            let (y_in, f) = find_attr-some ys oid y k in
            k ∙ ap some (In-unique y x xs d (back y y_in f) x_in (f ∙ sym e)) ∙ sym h
      ]
]
