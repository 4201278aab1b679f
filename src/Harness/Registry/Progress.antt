-- ===== src/Harness/Registry/Progress.antt =====
-- The inner loop of the order of proofops/harness/registry.py: it takes the plugin that has started
-- from all that wait for it, and makes ready each that waits for none.
use mathlib.Core.Path.{subst}
use safehire_proofops_bnb.Prelude.{
  String, ◌≡◌, refl, sym, ap, ◌∙◌, ◌≢◌, ◌⊎◌, inl, inr, true, false, not, ◌&&◌, some, List, [], ◌∷◌,
  ◌++◌, str_eq, arith, eq_iff, Bool-cases, Option-cases, is_empty,
}
use safehire_proofops_bnb.Prelude.Dict.{lookup, insert}
use safehire_proofops_bnb.Prelude.Members.{
  member, Listed, member_iff, AreApart, Listed-append, append-Listed_left, append-Listed_last,
}
use safehire_proofops_bnb.Harness.Registry.{Deps, sorted, drop_all, keys, release_one, release}
use safehire_proofops_bnb.Harness.Registry.Sorting.{sorted-Listed, sorted-AreApart, append-AreApart}
use safehire_proofops_bnb.Harness.Registry.Release.{Listed-sorted, insert_at, some_inj}

drop_all-sub : (c d : String) (xs : List String) → Listed d (drop_all c xs) → Listed d xs × (d ≢ c)
unfolding drop_all
drop_all-sub c d [] h = absurd h
drop_all-sub c d (y ∷ ys) h = elim (Bool-cases (str_eq c y)) [
  | inl hit ↦ let found = drop_all-sub c d ys (ground (arith, hit, h)) in (inr found.0, found.1)
  | inr miss ↦ ground (arith, miss, h, eq_iff c y, drop_all-sub c d ys)
]

keys-insert :
    (k : String) (v before : List String) (deps : Deps)
    → lookup k deps ≡ some before
    → keys (insert k v deps) ≡ keys deps
unfolding keys insert lookup
keys-insert k v before [] at = absurd (cc)
keys-insert k v before ((j, w) ∷ deps) at =
    ground (arith, at, eq_iff j k, keys-insert k v before deps)

module _ (full : Deps) (current : String) (ordered now : List String) where
  -- A plugin waits only for what it depends on and has not been ordered; it waits for the one that
  -- has started only where the loop still comes to it; one that waits for none is ready or ordered;
  -- and what is ready is a plugin, stands there once, and has not been ordered.
  abbrev pub Progresses : List String → Deps × List String → Type 0
  Progresses ks (deps, ready) =
      (keys deps ≡ keys full)
      × ((k : String) (left : List String)
          → lookup k deps ≡ some left
          → (d : String) → Listed d left
          → ((before : List String) × (lookup k full ≡ some before) × Listed d before)
            × ¬ Listed d ordered)
      × ((k : String) (left : List String)
          → lookup k deps ≡ some left
          → Listed k ks ⊎ ¬ Listed current left)
      × ((k : String) → lookup k deps ≡ some [] → Listed k ready ⊎ Listed k now)
      × AreApart ready
      × ((j : String) → Listed j ready → Listed j (keys full) × ¬ Listed j now)

  pass_by :
      (k : String) (ks : List String) (deps : Deps) (ready : List String)
      → ((left : List String) → lookup k deps ≡ some left → ¬ Listed current left)
      → Progresses (k ∷ ks) (deps, ready)
      → Progresses ks (deps, ready)
  pass_by k ks deps ready clear (same, needed, waits, free, apart, alive) = (
    same,
    needed,
    (λ j left at. elim (waits j left at) [
      | inl (inl e) ↦ inr (clear left (ap (λ x. lookup x deps) (sym e) ∙ at))
      | inl (inr l) ↦ inl l
      | inr gone ↦ inr gone
    ]),
    free,
    apart,
    alive,
  )

  take_out :
      (k : String) (ks : List String) (deps : Deps) (ready ready' before : List String)
      → lookup k deps ≡ some before
      → ((j : String) → Listed j ready → Listed j ready')
      → (drop_all current before ≡ [] → Listed k ready' ⊎ Listed k now)
      → AreApart ready'
      → ((j : String) → Listed j ready' → Listed j (keys full) × ¬ Listed j now)
      → Progresses (k ∷ ks) (deps, ready)
      → Progresses ks (insert k (drop_all current before) deps, ready')
  take_out k ks deps ready ready' before at grown own apart' alive'
        (same, needed, waits, free, apart, alive) =
      let left = drop_all current before in
      (
        keys-insert k left before deps at ∙ same,
        (λ j l got d need. elim (insert_at k j left deps) [
          | inr (other, kept) ↦ needed j l (sym kept ∙ got) d need
          | inl (e, now_left) ↦
              needed j before (ap (λ x. lookup x deps) (sym e) ∙ at) d
                (drop_all-sub current d before
                  (subst (Listed d) (sym (some_inj left l (sym now_left ∙ got))) need)).0
        ]),
        (λ j l got. elim (insert_at k j left deps) [
          | inr (other, kept) ↦ elim (waits j l (sym kept ∙ got)) [
            | inl (inl e) ↦ absurd (other (sym e))
            | inl (inr later) ↦ inl later
            | inr gone ↦ inr gone
          ]
          | inl (e, now_left) ↦ inr (λ h.
              (drop_all-sub current current before
                  (subst (Listed current) (sym (some_inj left l (sym now_left ∙ got))) h)).1
                refl)
        ]),
        (λ j got. elim (insert_at k j left deps) [
          | inr (other, kept) ↦ elim (free j (sym kept ∙ got)) [
            | inl waiting ↦ inl (grown j waiting)
            | inr done ↦ inr done
          ]
          | inl (e, now_left) ↦
              subst (λ x. Listed x ready' ⊎ Listed x now) e
                (own (some_inj left [] (sym now_left ∙ got)))
        ]),
        apart',
        alive',
      )

pub lookup-Listed :
    (k : String) (before : List String) (deps : Deps)
    → lookup k deps ≡ some before
    → Listed k (keys deps)
unfolding keys lookup
lookup-Listed k before [] at = absurd (cc)
lookup-Listed k before ((j, w) ∷ deps) at =
    ground (arith, at, eq_iff j k, lookup-Listed k before deps)

nothing_of : (xs : List String) → xs ≡ [] → is_empty xs ≡ true
nothing_of xs e = ap is_empty e

unlisted : (k : String) (xs : List String) → member k xs ≡ false → ¬ Listed k xs
unlisted k xs out l = ground (arith, out, (member_iff k xs).1 l)

stays_put :
    (k : String) (left now ready : List String)
    → (is_empty left && (not (member k now) && not (member k ready))) ≡ false
    → left ≡ []
    → Listed k ready ⊎ Listed k now
stays_put k left now ready e nothing = elim (Bool-cases (member k now)) [
  | inl there ↦ inr ((member_iff k now).0 there)
  | inr away ↦ elim (Bool-cases (member k ready)) [
    | inl waiting ↦ inl ((member_iff k ready).0 waiting)
    | inr out ↦ absurd (ground (arith, e, nothing_of left nothing, away, out))
  ]
]

joined-alive :
    (k : String) (all now ready : List String)
    → Listed k all
    → ¬ Listed k now
    → ((j : String) → Listed j ready → Listed j all × ¬ Listed j now)
    → (j : String) → Listed j (sorted (ready ++ (k ∷ [])))
    → Listed j all × ¬ Listed j now
joined-alive k all now ready known out alive j l =
    elim (Listed-append j ready (k ∷ []) (Listed-sorted j (ready ++ (k ∷ [])) l)) [
      | inl early ↦ alive j early
      | inr (inl e) ↦ subst (λ x. Listed x all × ¬ Listed x now) (sym e) (known, out)
      | inr (inr none_left) ↦ absurd none_left
    ]

module _ (full : Deps) (current : String) (ordered now : List String) where
  release_one-Progresses :
      (k : String) (ks : List String) (deps : Deps) (ready : List String)
      → Progresses full current ordered now (k ∷ ks) (deps, ready)
      → Progresses full current ordered now ks (release_one current now k (deps, ready))
  unfolding release_one
  release_one-Progresses k ks deps ready h = elim (Option-cases (lookup k deps)) [
    | inl gone ↦
        let same : release_one current now k (deps, ready) ≡ (deps, ready) = ground (arith, gone) in
        subst (Progresses full current ordered now ks) (sym same) (
          pass_by full current ordered now k ks deps ready
            (λ left at. absurd (ground (arith, gone, at))) h)
    | inr (before, at) ↦ elim (Bool-cases (member current before)) [
      | inr out ↦
          let same : release_one current now k (deps, ready) ≡ (deps, ready) =
            ground (arith, at, out) in
          subst (Progresses full current ordered now ks) (sym same) (
            pass_by full current ordered now k ks deps ready
              (λ left got.
                subst (λ x. ¬ Listed current x) (some_inj before left (sym at ∙ got))
                  (unlisted current before out))
              h)
      | inl mem ↦
          let left = drop_all current before in
          let joined = sorted (ready ++ (k ∷ [])) in
          elim (Bool-cases (is_empty left && (not (member k now) && not (member k ready)))) [
            | inr stays ↦
                let same : release_one current now k (deps, ready) ≡ (insert k left deps, ready) =
                  ground (arith, at, mem, stays) in
                subst (Progresses full current ordered now ks) (sym same) (
                  take_out full current ordered now k ks deps ready ready before at (λ j l. l)
                    (stays_put k left now ready stays) h.4 h.5 h)
            | inl joins ↦
                let same : release_one current now k (deps, ready) ≡ (insert k left deps, joined) =
                  ground (arith, at, mem, joins) in
                let unready : member k ready ≡ false = ground (arith, joins) in
                let unordered : member k now ≡ false = ground (arith, joins) in
                let known = subst (Listed k) h.0 (lookup-Listed k before deps at) in
                subst (Progresses full current ordered now ks) (sym same) (
                  take_out full current ordered now k ks deps ready joined before at
                    (λ j l.
                      sorted-Listed j (ready ++ (k ∷ [])) (append-Listed_left j ready (k ∷ []) l))
                    (λ e. inl (sorted-Listed k (ready ++ (k ∷ [])) (append-Listed_last k ready)))
                    (sorted-AreApart (ready ++ (k ∷ []))
                      (append-AreApart ready k h.4 (unlisted k ready unready)))
                    (joined-alive k (keys full) now ready known (unlisted k now unordered) h.5) h)
          ]
    ]
  ]

  pub release-Progresses :
      (ks : List String) (s : Deps × List String)
      → Progresses full current ordered now ks s
      → Progresses full current ordered now [] (release current now ks s)
  unfolding release
  release-Progresses [] s h = h
  release-Progresses (k ∷ ks) (deps, ready) h =
      release-Progresses ks (release_one current now k (deps, ready))
        (release_one-Progresses k ks deps ready h)
