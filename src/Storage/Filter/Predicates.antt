-- ===== src/Storage/Filter/Predicates.antt =====
-- The predicates of packages/storage/src/filter.ts decide what the operators mean.
use mathlib.Core.Path.{subst}
use sinterdb.Prelude.{
  ◌≡◌, refl, sym, ap, ◌∙◌, ◌⊎◌, inl, Bool, true, false, ◌||◌, Option, none, some, List, [], ◌∷◌,
  map, Bytes, str_eq, str_eq→≡, str_eq_refl, Result, ok, ◌>>=◌, >>=-eq-ok, require-eq-ok,
  if◌then◌else◌,
}
use sinterdb.Protocol.Errors.{Throws}
use sinterdb.Protocol.Document.{Value, Items, bool, array, nil, cons}
use sinterdb.Protocol.Encoder.{encode_document_value}
use sinterdb.Storage.Errors.{Thrown, storage, invalid_filter, encoded, encoded-eq-ok}
use sinterdb.Storage.Compare.{Comparison}
use sinterdb.Storage.Predicate.{
  ResolvedField, found, missing, FieldPredicate, any, canonical_equals, equality, inequality,
  ComparisonOperator, gt, gte, lt, lte, satisfies, compares, compared, compare_values,
  encode_candidates, equals_some, element_equals_some, element_match, is_member, membership,
  exists_as, is_comparable_value,
}
use sinterdb.Storage.Filter.{
  Operator, eq, ne, member, nonmember, exists, negation, comparison, compile_operator,
}
use sinterdb.Storage.Filter.Meaning.{
  SameEncoding, SomeItem, IsEqual, HasElement, IsMember, IsFound, Compared,
}
use sinterdb.Storage.Filter.Named.{OperatorHolds, Satisfied, satisfies-decided, incomparable-not}
use sinterdb.Storage.Filter.Decide.{
  Decided, Decides, Decided-or, Decided-negated, any-nil, any-cons,
}

pub canonical_equals-decided :
    (u v : Value) (bytes : Bytes) (b : Bool)
    → encode_document_value v ≡ ok bytes
    → canonical_equals u bytes ≡ ok b
    → Decided b (SameEncoding u v)
unfolding canonical_equals
canonical_equals-decided u v bytes b hv h =
    let (own, h1, h2) = >>=-eq-ok (encode_document_value u) (λ own. ok (str_eq own bytes)) h in
    let e : str_eq own bytes ≡ b = cc in by_answer own h1 b e
  where
    by_answer :
        (own : Bytes)
        → encode_document_value u ≡ ok own
        → (b : Bool) → str_eq own bytes ≡ b
        → Decided b (SameEncoding u v)
    by_answer own hu true e = (bytes, hu ∙ ap ok (str_eq→≡ own bytes e), hv)
    by_answer own hu false e = λ same.
        let (common, k1, k2) = same in
        let own_is : own ≡ common = cc in
        let bytes_is : bytes ≡ common = cc in
        let bad : str_eq own bytes ≡ true =
          ap (λ x. str_eq x bytes) (own_is ∙ sym bytes_is) ∙ str_eq_refl bytes in
        let bad' : ◌≡◌ {A = Bool} true false = sym bad ∙ e in cc

pub equality-decided :
    (v : Value) (bytes : Bytes)
    → encode_document_value v ≡ ok bytes
    → Decides (equality bytes) (IsEqual v)
equality-decided v bytes hv missing true h = cc
equality-decided v bytes hv missing false h = λ x. x
equality-decided v bytes hv (found u) b h = canonical_equals-decided u v bytes b hv h

inequality-decided :
    (v : Value) (bytes : Bytes)
    → encode_document_value v ≡ ok bytes
    → Decides (inequality bytes) (λ r. ¬ IsEqual v r)
inequality-decided v bytes hv missing true h = λ x. x
inequality-decided v bytes hv missing false h = cc
inequality-decided v bytes hv (found u) b h =
    Decided-negated (SameEncoding u v) (canonical_equals u bytes)
      (λ b h. canonical_equals-decided u v bytes b hv h) b h

equals_some-decided :
    (vs : Items) (candidates : List Bytes)
    → encode_candidates vs ≡ ok candidates
    → Decides (equals_some candidates) (λ u. SomeItem (SameEncoding u) vs)
unfolding encode_candidates equals_some
equals_some-decided nil candidates hc =
    let e : [] ≡ candidates = cc in
    subst (λ cs. Decides (any (map (λ c v. canonical_equals v c) cs)) (λ u. ⊥)) e any-nil
equals_some-decided (cons v vs) candidates hc =
    let (bytes, h1, h2) =
      >>=-eq-ok (encode_document_value v) (λ bytes. encode_candidates vs >>= λ cs. ok (bytes ∷ cs))
        hc in
    let (cs, h3, h4) = >>=-eq-ok (encode_candidates vs) (λ cs. ok (bytes ∷ cs)) h2 in
    let e : bytes ∷ cs ≡ candidates = cc in
    subst
      (λ l.
        Decides (any (map (λ c v. canonical_equals v c) l))
          (λ u. SameEncoding u v ⊎ SomeItem (SameEncoding u) vs))
      e
      (any-cons (λ u. canonical_equals u bytes) (map (λ c v. canonical_equals v c) cs)
        (λ u. SameEncoding u v) (λ u. SomeItem (SameEncoding u) vs)
        (λ u b h. canonical_equals-decided u v bytes b h1 h) (equals_some-decided vs cs h3))

Decided-either : (S T : Type 0) (d e : Bool) → Decided d S → Decided e T → Decided (d || e) (S ⊎ T)
Decided-either S T true e s t = inl s
Decided-either S T false e n t = Decided-or S T e n t

module _ (vs : Items) (candidates : List Bytes)
    (encode : encode_candidates vs ≡ ok candidates) where
  element-decided :
      (us : Items) (b : Bool)
      → element_equals_some us candidates ≡ ok b
      → Decided b (SomeItem (λ u. SomeItem (SameEncoding u) vs) us)
  unfolding element_equals_some
  element-decided nil true h = cc
  element-decided nil false h = λ x. x
  element-decided (cons u us) b h =
      let (c, h1, h2) =
        >>=-eq-ok (equals_some candidates u)
          (λ holds. if holds then ok true else element_equals_some us candidates) h in
      after (element-decided us b) c b refl (equals_some-decided vs candidates encode u c h1) h2
    where
      after :
          (element_equals_some us candidates ≡ ok b
            → Decided b (SomeItem (λ u. SomeItem (SameEncoding u) vs) us))
          → (c d : Bool) → b ≡ d
          → Decided c (SomeItem (SameEncoding u) vs)
          → ◌≡◌ {A = Throws Bool} (if c then ok true else element_equals_some us candidates) (ok d)
          → Decided d
              (SomeItem (SameEncoding u) vs ⊎ SomeItem (λ u. SomeItem (SameEncoding u) vs) us)
      after rest true true e s k = inl s
      after rest true false e s k = cc
      after rest false d e n k =
          Decided-or (SomeItem (SameEncoding u) vs)
            (SomeItem (λ u. SomeItem (SameEncoding u) vs) us) d n
            (subst (λ x. Decided x (SomeItem (λ u. SomeItem (SameEncoding u) vs) us)) e
              (rest (k ∙ ap ok (sym e))))

  element_match-decided :
      (u : Value) (b : Bool) → element_match u candidates ≡ ok b → Decided b (HasElement vs u)
  element_match-decided (array us) b h = element-decided us b h
  element_match-decided _ true h = cc
  element_match-decided _ false h = λ x. x

  is_member-decided :
      (u : Value) (b : Bool) → is_member candidates u ≡ ok b → Decided b (IsMember vs (found u))
  unfolding is_member
  is_member-decided u b h =
      let (direct, h1, h2) =
        >>=-eq-ok (equals_some candidates u)
          (λ direct. element_match u candidates >>= λ element. ok (direct || element)) h in
      let (element, h3, h4) =
        >>=-eq-ok (element_match u candidates) (λ element. ok (direct || element)) h2 in
      let e : (direct || element) ≡ b = cc in
      subst (λ x. Decided x (IsMember vs (found u))) e
        (Decided-either (SomeItem (SameEncoding u) vs) (HasElement vs u) direct element
          (equals_some-decided vs candidates encode u direct h1)
          (element_match-decided u element h3))

  IsMember-decided : Decides (membership false candidates) (IsMember vs)
  IsMember-decided missing true h = cc
  IsMember-decided missing false h = λ x. x
  IsMember-decided (found u) b h =
      let (matched, h1, h2) = >>=-eq-ok (is_member candidates u) (λ matched. ok matched) h in
      let e : matched ≡ b = cc in
      subst (λ x. Decided x (IsMember vs (found u))) e (is_member-decided u matched h1)

  nonmember-decided : Decides (membership true candidates) (λ r. ¬ IsMember vs r)
  nonmember-decided missing true h = λ x. x
  nonmember-decided missing false h = cc
  nonmember-decided (found u) b h =
      Decided-negated (IsMember vs (found u)) (is_member candidates u) (is_member-decided u) b h

compared-decided :
    (operator : ComparisonOperator) (v : Value)
    → Decides (compared operator v) (Compared (Satisfied operator) v)
unfolding compares
compared-decided operator v missing true h = cc
compared-decided operator v missing false h = λ x. x
compared-decided operator v (found u) b h =
    let e : compares operator u v ≡ b = cc in by_order (compare_values u v) refl b e
  where
    by_order :
        (o : Option Comparison)
        → compare_values u v ≡ o
        → (b : Bool) → compares operator u v ≡ b
        → Decided b (Satisfied operator u v)
    by_order none hc true e = let e' : ◌≡◌ {A = Bool} false true = rw (hc, compares) at e in cc
    by_order none hc false e = incomparable-not operator u v hc
    by_order (some c) hc b e =
        let e' : satisfies operator c ≡ b = rw (hc, compares) at e in
        subst (λ x. Decided x (Satisfied operator u v)) e' (satisfies-decided operator u v c hc)

-- The statement on a comparison, as the operator's name spells it.
comparison-decided :
    (operator : ComparisonOperator) (v : Value) (N : ResolvedField → Type 0)
    → Decides (compared operator v) (λ r. OperatorHolds (some (comparison operator)) v r (N r))
comparison-decided gt v N r b h = compared-decided gt v r b h
comparison-decided gte v N r b h = compared-decided gte v r b h
comparison-decided lt v N r b h = compared-decided lt v r b h
comparison-decided lte v N r b h = compared-decided lte v r b h

exists-decided : (expected : Bool) → Decides (exists_as expected) (IsFound expected)
exists-decided true (found u) true h = tt
exists-decided true (found u) false h = cc
exists-decided true missing true h = cc
exists-decided true missing false h = λ x. x
exists-decided false (found u) true h = cc
exists-decided false (found u) false h = λ x. x
exists-decided false missing true h = tt
exists-decided false missing false h = cc

-- What an operator compiles to decides what it means, if `inner` does so for `$not`.
pub compile_operator-Decides :
    (o : Option Operator) (v : Value) (inner : Result Thrown FieldPredicate)
    (N : ResolvedField → Type 0) (predicate : FieldPredicate)
    → ((p : FieldPredicate) → inner ≡ ok p → Decides p N)
    → compile_operator o v inner ≡ ok predicate
    → Decides predicate (λ r. OperatorHolds o v r (N r))
unfolding compile_operator
compile_operator-Decides none v inner N predicate sound h = cc
compile_operator-Decides (some eq) v inner N predicate sound h =
    let (bytes, h1, h2) =
      >>=-eq-ok (encoded (encode_document_value v)) (λ bytes. ok (equality bytes)) h in
    let e : equality bytes ≡ predicate = cc in
    subst (λ p. Decides p (IsEqual v)) e
      (equality-decided v bytes (encoded-eq-ok (encode_document_value v) h1))
compile_operator-Decides (some ne) v inner N predicate sound h =
    let (bytes, h1, h2) =
      >>=-eq-ok (encoded (encode_document_value v)) (λ bytes. ok (inequality bytes)) h in
    let e : inequality bytes ≡ predicate = cc in
    subst (λ p. Decides p (λ r. ¬ IsEqual v r)) e
      (inequality-decided v bytes (encoded-eq-ok (encode_document_value v) h1))
compile_operator-Decides (some (comparison operator)) v inner N predicate sound h =
    let (valid, h1) =
      require-eq-ok (is_comparable_value v) (storage invalid_filter) (ok (compared operator v)) h in
    let e : compared operator v ≡ predicate = cc in
    subst (λ p. Decides p (λ r. OperatorHolds (some (comparison operator)) v r (N r))) e
      (comparison-decided operator v N)
compile_operator-Decides (some member) (array vs) inner N predicate sound h =
    let (candidates, h1, h2) =
      >>=-eq-ok (encoded (encode_candidates vs)) (λ candidates. ok (membership false candidates))
        h in
    let e : membership false candidates ≡ predicate = cc in
    subst (λ p. Decides p (IsMember vs)) e
      (IsMember-decided vs candidates (encoded-eq-ok (encode_candidates vs) h1))
compile_operator-Decides (some nonmember) (array vs) inner N predicate sound h =
    let (candidates, h1, h2) =
      >>=-eq-ok (encoded (encode_candidates vs)) (λ candidates. ok (membership true candidates))
        h in
    let e : membership true candidates ≡ predicate = cc in
    subst (λ p. Decides p (λ r. ¬ IsMember vs r)) e
      (nonmember-decided vs candidates (encoded-eq-ok (encode_candidates vs) h1))
compile_operator-Decides (some exists) (bool b) inner N predicate sound h =
    let e : exists_as b ≡ predicate = cc in subst (λ p. Decides p (IsFound b)) e (exists-decided b)
compile_operator-Decides (some negation) v inner N predicate sound h = sound predicate h
compile_operator-Decides (some member) _ inner N predicate sound h = cc
compile_operator-Decides (some nonmember) _ inner N predicate sound h = cc
compile_operator-Decides (some exists) _ inner N predicate sound h = cc
