-- ===== src/Harness/Registry/Release.antt =====
-- The inner loop of the order of proofops/harness/registry.py: which plugins it leaves ready.
use mathlib.Core.Path.{subst}
use mathlib.Core.Bool.{false≢true}
use safehire_proofops_bnb.Prelude.{
  String, ◌≡◌, refl, sym, ap, ◌∙◌, ◌≢◌, ◌⊎◌, inl, inr, true, not, ◌&&◌, some, List, [], ◌∷◌, ◌++◌,
  str_eq, if◌then◌else◌, arith, eq_iff, Bool-cases, Option-cases, is_empty,
}
use safehire_proofops_bnb.Prelude.Dict.{lookup, insert, lookup-insert, lookup-insert_self}
use safehire_proofops_bnb.Prelude.Members.{member, Listed, Listed-append}
use safehire_proofops_bnb.Harness.Registry.{
  Deps, sorted, put_sorted, drop_all, release, release_one,
}

pub Listed-put_sorted :
    (j x : String) (xs : List String) → Listed j (put_sorted x xs) → (j ≡ x) ⊎ Listed j xs
unfolding put_sorted
Listed-put_sorted j x [] h = ground (arith, h)
Listed-put_sorted j x (y ∷ ys) h = ground (arith, h, Listed-put_sorted j x ys)

pub Listed-sorted : (j : String) (xs : List String) → Listed j (sorted xs) → Listed j xs
unfolding sorted
Listed-sorted j [] h = h
Listed-sorted j (x ∷ xs) h = elim (Listed-put_sorted j x (sorted xs) h) [
  | inl e ↦ inl e
  | inr rest ↦ inr (Listed-sorted j xs rest)
]

pub drop_all-Listed :
    (c d : String) (xs : List String) → Listed d xs → (d ≡ c) ⊎ Listed d (drop_all c xs)
unfolding drop_all
drop_all-Listed c d [] h = absurd h
drop_all-Listed c d (y ∷ ys) (inl e) = ground (arith, eq_iff c y, e)
drop_all-Listed c d (y ∷ ys) (inr h) = ground (arith, drop_all-Listed c d ys h)

-- What is not yet released of each plugin's dependencies has not been ordered.
abbrev pub Covers : Deps → Deps → List String → Type 0
Covers full deps done =
    (k : String) (before left : List String)
    → lookup k full ≡ some before
    → lookup k deps ≡ some left
    → (d : String) → Listed d before
    → Listed d left ⊎ Listed d done

abbrev pub AreFree : Deps → List String → Type 0
AreFree deps ready = (k : String) → Listed k ready → lookup k deps ≡ some []

pub insert_at :
    (k j : String) (v : List String) (deps : Deps)
    → ((k ≡ j) × (lookup j (insert k v deps) ≡ some v))
      ⊎ ((k ≢ j) × (lookup j (insert k v deps) ≡ lookup j deps))
insert_at k j v deps =
    let law = lookup-insert k j v deps in
    elim (Bool-cases (str_eq k j)) [
      | inl hit ↦ inl ((eq_iff k j).0 hit, law ∙ ap (λ b. if b then some v else lookup j deps) hit)
      | inr miss ↦ inr (
        (λ e. false≢true (sym miss ∙ (eq_iff k j).1 e)),
        law ∙ ap (λ b. if b then some v else lookup j deps) miss,
      )
    ]

pub some_inj : (xs ys : List String) → some xs ≡ some ys → xs ≡ ys
some_inj xs ys e = cc

not_in_nothing : (c : String) (xs : List String) → xs ≡ [] → member c xs ≢ true
unfolding member
not_in_nothing c xs e h = ground (arith, e, h)

pub empty_of : (xs : List String) → is_empty xs ≡ true → xs ≡ []
empty_of [] e = refl
empty_of (x ∷ xs) e = absurd (cc)

module _ (full : Deps) (current : String) (done : List String) (has : Listed current done) where
  Covers-insert :
      (deps : Deps) (k : String) (before : List String)
      → lookup k deps ≡ some before
      → Covers full deps done
      → Covers full (insert k (drop_all current before) deps) done
  Covers-insert deps k before at h j wanted left in_full in_deps d need =
      elim (insert_at k j (drop_all current before) deps) [
        | inr (other, same) ↦ h j wanted left in_full (sym same ∙ in_deps) d need
        | inl (e, got) ↦
            let its = some_inj (drop_all current before) left (sym got ∙ in_deps) in
            elim (h j wanted before in_full (ap (λ x. lookup x deps) (sym e) ∙ at) d need) [
              | inr placed ↦ inr placed
              | inl waits ↦ elim (drop_all-Listed current d before waits) [
                | inl now ↦ inr (subst (λ x. Listed x done) (sym now) has)
                | inr still ↦ inl (subst (Listed d) its still)
              ]
            ]
      ]

  AreFree-insert :
      (deps : Deps) (k : String) (before : List String) (ready : List String)
      → lookup k deps ≡ some before
      → member current before ≡ true
      → AreFree deps ready
      → AreFree (insert k (drop_all current before) deps) ready
  AreFree-insert deps k before ready at mem h j in_ready =
      elim (insert_at k j (drop_all current before) deps) [
        | inr (other, same) ↦ same ∙ h j in_ready
        | inl (e, got) ↦
            let nothing = some_inj before [] (sym at ∙ ap (λ x. lookup x deps) e ∙ h j in_ready) in
            absurd (not_in_nothing current before nothing mem)
      ]

  AreFree-more :
      (deps : Deps) (k : String) (ready : List String)
      → lookup k deps ≡ some []
      → AreFree deps ready
      → AreFree deps (sorted (ready ++ (k ∷ [])))
  AreFree-more deps k ready at h j in_more =
      elim (Listed-append j ready (k ∷ []) (Listed-sorted j (ready ++ (k ∷ [])) in_more)) [
        | inl old ↦ h j old
        | inr (inl e) ↦ ap (λ x. lookup x deps) e ∙ at
        | inr (inr none_left) ↦ absurd none_left
      ]

  abbrev pub Fits : Deps × List String → Type 0
  Fits s = Covers full s.0 done × AreFree s.0 s.1

  release_one-Fits :
      (ordered : List String) (k : String) (deps : Deps) (ready : List String)
      → Fits (deps, ready)
      → Fits (release_one current ordered k (deps, ready))
  unfolding release_one
  release_one-Fits ordered k deps ready h = elim (Option-cases (lookup k deps)) [
    | inl gone ↦
        let same : release_one current ordered k (deps, ready) ≡ (deps, ready) =
          ground (arith, gone) in
        subst Fits (sym same) h
    | inr (before, at) ↦ elim (Bool-cases (member current before)) [
      | inr out ↦
          let same : release_one current ordered k (deps, ready) ≡ (deps, ready) =
            ground (arith, at, out) in
          subst Fits (sym same) h
      | inl mem ↦
          let left = drop_all current before in
          let deps' = insert k left deps in
          let covers = Covers-insert deps k before at h.0 in
          let free = AreFree-insert deps k before ready at mem h.1 in
          elim (Bool-cases (is_empty left && (not (member k ordered) && not (member k ready)))) [
            | inr stays ↦
                let same : release_one current ordered k (deps, ready) ≡ (deps', ready) =
                  ground (arith, at, mem, stays) in
                subst Fits (sym same) (covers, free)
            | inl joins ↦
                let same : release_one current ordered k (deps, ready)
                    ≡ (deps', sorted (ready ++ (k ∷ []))) =
                  ground (arith, at, mem, joins) in
                let nothing : lookup k deps' ≡ some [] =
                  lookup-insert_self k left deps ∙ ap some (empty_of left (ground arith)) in
                subst Fits (sym same) (covers, AreFree-more deps' k ready nothing free)
          ]
    ]
  ]

  pub release-Fits :
      (ordered ks : List String) (s : Deps × List String)
      → Fits s
      → Fits (release current ordered ks s)
  unfolding release
  release-Fits ordered [] s h = h
  release-Fits ordered (k ∷ ks) (deps, ready) h =
      release-Fits ordered ks (release_one current ordered k (deps, ready))
        (release_one-Fits ordered k deps ready h)
