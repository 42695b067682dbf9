-- ===== src/Storage/Filter/Returns.antt =====
-- The predicates of packages/storage/src/filter.ts return for every field whose value has an encoding.
use mathlib.Core.Path.{subst}
use sinterdb.Prelude.{
  ◌≡◌, refl, ap, ◌∙◌, Bool, true, false, not, ◌||◌, Option, none, some, List, [], ◌∷◌, map, Bytes,
  Str, str_eq, Result, ok, ◌>>=◌, >>=-eq-ok, require-eq-ok, if◌then◌else◌, All,
}
use sinterdb.Protocol.Errors.{Throws}
use sinterdb.Protocol.Document.{Value, Items, Fields, bool, array, nil, cons}
use sinterdb.Protocol.Encoder.{encode_document_value}
use sinterdb.Storage.Errors.{Thrown, storage, invalid_filter, encoded}
use sinterdb.Storage.Predicate.{
  ResolvedField, found, missing, FieldPredicate, every, any, negated, resolve_field,
  canonical_equals, equality, inequality, compared, compares, ComparisonOperator, encode_candidates,
  equals_some, element_equals_some, element_match, is_member, membership, exists_as,
  is_comparable_value,
}
use sinterdb.Storage.Filter.{
  Operator, eq, ne, member, nonmember, exists, negation, comparison, compile_operator,
}

abbrev pub HasEncoding : Value → Type 0
HasEncoding u = (bytes : Bytes) × (encode_document_value u ≡ ok bytes)

abbrev pub ItemsHaveEncodings : Items → Type 0
ItemsHaveEncodings nil = Unit
ItemsHaveEncodings (cons u us) = HasEncoding u × ItemsHaveEncodings us

abbrev pub ElementsHaveEncodings : Value → Type 0
ElementsHaveEncodings (array us) = ItemsHaveEncodings us
ElementsHaveEncodings _ = Unit

abbrev pub IsEncodable : ResolvedField → Type 0
IsEncodable missing = Unit
IsEncodable (found u) = HasEncoding u × ElementsHaveEncodings u

-- Every value that a path leads to has an encoding, and so has every element of an array there.
abbrev pub AllEncodable : Fields → Type 0
AllEncodable doc = (segments : List Str) → IsEncodable (resolve_field doc segments)

abbrev pub Returns : Throws Bool → Type 0
Returns result = (b : Bool) × (result ≡ ok b)

pub bind-Returns :
    (result : Throws Bool) (next : Bool → Throws Bool)
    → Returns result
    → ((b : Bool) → Returns (next b))
    → Returns (result >>= next)
bind-Returns result next (b, e) following =
    let (c, f) = following b in (c, ap (λ r. r >>= next) e ∙ f)

module _ {ℓ} {D : Type ℓ} (d : D) where
  abbrev pub AllReturn : List (D → Throws Bool) → Type 0
  AllReturn tests = All (λ (test : D → Throws Bool). Returns (test d)) tests

  pub every-Returns : (tests : List (D → Throws Bool)) → AllReturn tests → Returns (every tests d)
  unfolding every
  every-Returns [] all = (true, refl)
  every-Returns (test ∷ tests) all =
      let rest = every-Returns tests all.1 in
      bind-Returns (test d) (λ holds. if holds then every tests d else ok false) all.0
        (λ b. after b rest)
    where
      after : (b : Bool) → Returns (every tests d) → Returns (if b then every tests d else ok false)
      after true rest = rest
      after false rest = (false, refl)

  pub any-Returns : (tests : List (D → Throws Bool)) → AllReturn tests → Returns (any tests d)
  unfolding any
  any-Returns [] all = (false, refl)
  any-Returns (test ∷ tests) all =
      let rest = any-Returns tests all.1 in
      bind-Returns (test d) (λ holds. if holds then ok true else any tests d) all.0
        (λ b. after b rest)
    where
      after : (b : Bool) → Returns (any tests d) → Returns (if b then ok true else any tests d)
      after true rest = (true, refl)
      after false rest = rest

canonical_equals-Returns :
    (u : Value) (bytes : Bytes) → HasEncoding u → Returns (canonical_equals u bytes)
unfolding canonical_equals
canonical_equals-Returns u bytes (own, e) =
    (str_eq own bytes, ap (λ r. r >>= λ bs. ok (str_eq bs bytes)) e)

equals_some-Returns :
    (u : Value) (candidates : List Bytes) → HasEncoding u → Returns (equals_some candidates u)
unfolding equals_some
equals_some-Returns u candidates own =
    any-Returns u (map (λ c v. canonical_equals v c) candidates) (each candidates)
  where
    each : (cs : List Bytes) → AllReturn u (map (λ c v. canonical_equals v c) cs)
    each [] = tt
    each (c ∷ cs) = (canonical_equals-Returns u c own, each cs)

element-Returns :
    (us : Items) (candidates : List Bytes)
    → ItemsHaveEncodings us
    → Returns (element_equals_some us candidates)
unfolding element_equals_some
element-Returns nil candidates all = (false, refl)
element-Returns (cons u us) candidates all =
    let rest = element-Returns us candidates all.1 in
    bind-Returns (equals_some candidates u)
      (λ holds. if holds then ok true else element_equals_some us candidates)
      (equals_some-Returns u candidates all.0) (λ b. after b rest)
  where
    after :
        (b : Bool)
        → Returns (element_equals_some us candidates)
        → Returns (if b then ok true else element_equals_some us candidates)
    after true rest = (true, refl)
    after false rest = rest

element_match-Returns :
    (u : Value) (candidates : List Bytes)
    → ElementsHaveEncodings u
    → Returns (element_match u candidates)
element_match-Returns (array us) candidates all = element-Returns us candidates all
element_match-Returns _ candidates all = (false, refl)

membership-Returns :
    (negate : Bool) (candidates : List Bytes) (r : ResolvedField)
    → IsEncodable r
    → Returns (membership negate candidates r)
unfolding is_member
membership-Returns negate candidates missing own = (negate, refl)
membership-Returns negate candidates (found u) own =
    bind-Returns (is_member candidates u) (λ matched. ok (if negate then not matched else matched))
      (bind-Returns (equals_some candidates u)
        (λ direct. element_match u candidates >>= λ element. ok (direct || element))
        (equals_some-Returns u candidates own.0)
        (λ direct.
          bind-Returns (element_match u candidates) (λ element. ok (direct || element))
            (element_match-Returns u candidates own.1) (λ element. ((direct || element), refl))))
      (λ matched. ((if negate then not matched else matched), refl))

-- A predicate that returns wherever the value has an encoding.
abbrev pub IsTotal : FieldPredicate → Type 0
IsTotal predicate = (r : ResolvedField) → IsEncodable r → Returns (predicate r)

pub equality-IsTotal : (bytes : Bytes) → IsTotal (equality bytes)
equality-IsTotal bytes missing own = (false, refl)
equality-IsTotal bytes (found u) own = canonical_equals-Returns u bytes own.0

pub negated-Returns : (result : Throws Bool) → Returns result → Returns (negated result)
negated-Returns result own = bind-Returns result (λ b. ok (not b)) own (λ b. (not b, refl))

inequality-IsTotal : (bytes : Bytes) → IsTotal (inequality bytes)
inequality-IsTotal bytes missing own = (true, refl)
inequality-IsTotal bytes (found u) own =
    negated-Returns (canonical_equals u bytes) (canonical_equals-Returns u bytes own.0)

compared-IsTotal : (operator : ComparisonOperator) (v : Value) → IsTotal (compared operator v)
compared-IsTotal operator v missing own = (false, refl)
compared-IsTotal operator v (found u) own = (compares operator u v, refl)

exists-IsTotal : (b : Bool) → IsTotal (exists_as b)
exists-IsTotal b missing own = (not b, refl)
exists-IsTotal b (found u) own = (b, refl)

pub compile_operator-IsTotal :
    (o : Option Operator) (v : Value) (inner : Result Thrown FieldPredicate)
    (predicate : FieldPredicate)
    → ((p : FieldPredicate) → inner ≡ ok p → IsTotal p)
    → compile_operator o v inner ≡ ok predicate
    → IsTotal predicate
unfolding compile_operator
compile_operator-IsTotal none v inner predicate total h = cc
compile_operator-IsTotal (some eq) v inner predicate total h =
    let (bytes, h1, h2) =
      >>=-eq-ok (encoded (encode_document_value v)) (λ bytes. ok (equality bytes)) h in
    let e : equality bytes ≡ predicate = cc in subst IsTotal e (equality-IsTotal bytes)
compile_operator-IsTotal (some ne) v inner predicate total h =
    let (bytes, h1, h2) =
      >>=-eq-ok (encoded (encode_document_value v)) (λ bytes. ok (inequality bytes)) h in
    let e : inequality bytes ≡ predicate = cc in subst IsTotal e (inequality-IsTotal bytes)
compile_operator-IsTotal (some (comparison operator)) v inner predicate total h =
    let (valid, h1) =
      require-eq-ok (is_comparable_value v) (storage invalid_filter) (ok (compared operator v)) h in
    let e : compared operator v ≡ predicate = cc in subst IsTotal e (compared-IsTotal operator v)
compile_operator-IsTotal (some member) (array vs) inner predicate total h =
    let (candidates, h1, h2) =
      >>=-eq-ok (encoded (encode_candidates vs)) (λ candidates. ok (membership false candidates))
        h in
    let e : membership false candidates ≡ predicate = cc in
    subst IsTotal e (membership-Returns false candidates)
compile_operator-IsTotal (some nonmember) (array vs) inner predicate total h =
    let (candidates, h1, h2) =
      >>=-eq-ok (encoded (encode_candidates vs)) (λ candidates. ok (membership true candidates))
        h in
    let e : membership true candidates ≡ predicate = cc in
    subst IsTotal e (membership-Returns true candidates)
compile_operator-IsTotal (some exists) (bool b) inner predicate total h =
    let e : exists_as b ≡ predicate = cc in subst IsTotal e (exists-IsTotal b)
compile_operator-IsTotal (some negation) v inner predicate total h = total predicate h
compile_operator-IsTotal (some member) _ inner predicate total h = cc
compile_operator-IsTotal (some nonmember) _ inner predicate total h = cc
compile_operator-IsTotal (some exists) _ inner predicate total h = cc

pub AllTotal-Returns :
    (ps : List FieldPredicate)
    → All IsTotal ps
    → (r : ResolvedField) → IsEncodable r
    → Returns (every ps r)
AllTotal-Returns ps all r own = every-Returns r ps (each ps all)
  where
    each : (qs : List FieldPredicate) → All IsTotal qs → AllReturn r qs
    each [] all = tt
    each (q ∷ qs) all = (all.0 r own, each qs all.1)
