-- ===== src/Workspace/Store/Claims.antt =====
-- What `claim` of proofops/workspace/store.py hands to a worker.
use mathlib.Core.Path.{subst}
use text.Mathlib.TextPositions.{eq_refl}
use safehire_proofops_bnb.Prelude.{
  ℕ, ◌+◌, ◌≤◌, ◌<◌, String, ◌≡◌, refl, sym, ap, ◌∙◌, ◌≢◌, Bool, true, false, some, List, [], ◌∷◌,
  ltb, keep, All, All-keep, All-map, ◌⊎◌, arith, eq_iff, Bool-cases, Option-cases, inl, inr,
}
use safehire_proofops_bnb.Workspace.Store.{
  Watch, Journal, find, change, is_over, is_ready, is_watch, expire, earliest, claim, seconds,
}

earliest_is :
    (v : Watch) (ws : List Watch) (w : Watch)
    → earliest (v ∷ ws) ≡ some w
    → (w ≡ v) ⊎ (earliest ws ≡ some w)
unfolding earliest
earliest_is v ws w e = elim (Option-cases (earliest ws)) [
  | inl nothing ↦ inl (ground (arith, nothing))
  | inr (u, found) ↦ elim (Bool-cases (ltb u.due v.due)) [
    | inl sooner ↦ inr (ground (arith, found))
    | inr later ↦ inl (ground (arith, found))
  ]
]

nothing_earliest : (w : Watch) → earliest [] ≢ some w
unfolding earliest
nothing_earliest w e = cc

module _ (P : Watch → Type 0) where
  All-change :
      (p : Watch → Bool) (f : Watch → Watch) (ws : List Watch)
      → ((w : Watch) → P w → P (f w))
      → All P ws
      → All P (change p f ws)
  unfolding change
  All-change p f [] keeps h = tt
  All-change p f (w ∷ ws) keeps h = elim (Bool-cases (p w)) [
    | inl hit ↦ (rw hit (keeps w h.0), All-change p f ws keeps h.1)
    | inr miss ↦ (rw miss h.0, All-change p f ws keeps h.1)
  ]

  earliest_of : (ws : List Watch) (w : Watch) → All P ws → earliest ws ≡ some w → P w
  earliest_of [] w h e = absurd (nothing_earliest w e)
  earliest_of (v ∷ ws) w h e = elim (earliest_is v ws w e) [
    | inl first ↦ subst P (sym first) h.0
    | inr rest ↦ earliest_of ws w h.1 rest
  ]

abbrev swept : ℕ → Journal → List Watch
swept now j = change (is_over now) expire j.watches

abbrev leased : ℕ → String → List Watch → List Watch
leased now id ws = change (is_watch id) (λ v. record v { lease = now + seconds 180 }) ws

claim_parts :
    (now : ℕ) (j : Journal) (w : Watch) (j' : Journal)
    → claim now j ≡ (some w, j')
    → (earliest (keep (is_ready now) (swept now j)) ≡ some w)
      × (j'.watches ≡ leased now w.id (swept now j))
unfolding claim
claim_parts now j w j' e =
    elim (Option-cases (earliest (keep (is_ready now) (change (is_over now) expire j.watches)))) [
      | inl nothing ↦ absurd (ground (arith, nothing))
      | inr (v, found) ↦ (ground (arith, found), ground (arith, found))
    ]

-- A claim returns a row of the swept table that is ready.
claim_of :
    (P : Watch → Type 0) (now : ℕ) (j : Journal) (w : Watch) (j' : Journal)
    → claim now j ≡ (some w, j')
    → All P (swept now j)
    → P w × (is_ready now w ≡ true)
claim_of P now j w j' e h =
    earliest_of (λ v. P v × (is_ready now v ≡ true)) (keep (is_ready now) (swept now j)) w
      (All-keep P (is_ready now) (swept now j) h) (claim_parts now j w j' e).0

-- Of the rows with an id, the lease runs past a time.
abbrev Held : String → ℕ → Watch → Type 0
Held id until w = w.id ≡ id → until ≤ w.lease

leased-Held :
    (now : ℕ) (id : String) (ws : List Watch) → All (Held id (now + seconds 180)) (leased now id ws)
unfolding change
leased-Held now id [] = tt
leased-Held now id (w ∷ ws) = elim (Bool-cases (is_watch id w)) [
  | inl hit ↦ (rw hit (λ e. omega arith), leased-Held now id ws)
  | inr miss ↦
      (rw miss (λ e. absurd (ground (arith, eq_iff w.id id, miss, e))), leased-Held now id ws)
]

-- While a lease runs, no claim returns the same watch: two workers that claim within 180 seconds of
-- each other hold different watches.
pub claim_again :
    (now later : ℕ) (j : Journal) (w v : Watch) (j' j'' : Journal)
    → claim now j ≡ (some w, j')
    → claim later j' ≡ (some v, j'')
    → later < now + seconds 180
    → v.id ≢ w.id
claim_again now later j w v j' j'' first second soon same =
    let until = now + seconds 180 in
    let start : All (Held w.id until) j'.watches =
      subst (All (Held w.id until)) (sym (claim_parts now j w j' first).1)
        (leased-Held now w.id (swept now j)) in
    let (held, ready) =
      claim_of (Held w.id until) later j' v j'' second
        (All-change (Held w.id until) (is_over later) expire j'.watches (λ x h. h) start) in
    let long = held same in ground arith

-- No row of a swept table is active past its end.
swept_live :
    (now : ℕ) (ws : List Watch) → All (λ w. is_over now w ≡ false) (change (is_over now) expire ws)
unfolding change
swept_live now [] = tt
swept_live now (w ∷ ws) = elim (Bool-cases (is_over now w)) [
  | inl over ↦ (rw over refl, swept_live now ws)
  | inr live ↦ (rw live live, swept_live now ws)
]

-- A claim returns a watch that is active, due, not past its end and under no lease.
pub claim_due :
    (now : ℕ) (j : Journal) (w : Watch) (j' : Journal)
    → claim now j ≡ (some w, j')
    → (w.active ≡ true) × (w.due ≤ now) × (now < w.expires) × (w.lease ≤ now)
claim_due now j w j' e =
    let (live, ready) =
      claim_of (λ v. is_over now v ≡ false) now j w j' e (swept_live now j.watches) in
    (ground arith, ground arith, ground arith, ground arith)

abbrev Found : String → List Watch → Type 0
Found id rows = (u : Watch) × (find (is_watch id) rows ≡ some u)

Found-more : (id : String) (x : Watch) (xs : List Watch) → Found id xs → Found id (x ∷ xs)
unfolding find
Found-more id x xs (u, e) = elim (Bool-cases (is_watch id x)) [
  | inl hit ↦ (x, rw hit refl)
  | inr miss ↦ (u, rw miss e)
]

rows-Found : (rows : List Watch) → All (λ v. Found v.id rows) rows
unfolding find
rows-Found [] = tt
rows-Found (x ∷ xs) = (
  (x, ground (arith, eq_refl x.id)),
  All-map (λ v. Found v.id xs) (λ v. Found v.id (x ∷ xs)) xs (λ v h. Found-more v.id x xs h)
      (rows-Found xs),
)

leased-Found :
    (now : ℕ) (id : String) (rows : List Watch) → Found id rows → Found id (leased now id rows)
unfolding find change
leased-Found now id [] (u, e) = absurd (cc)
leased-Found now id (x ∷ xs) (u, e) = elim (Bool-cases (is_watch id x)) [
  | inl hit ↦ (record x { lease = now + seconds 180 }, rw hit (rw hit refl))
  | inr miss ↦
      let (v, rest) = leased-Found now id xs (u, ground (arith, miss, e)) in
      (v, rw miss (rw miss rest))
]

-- The row that a claim returns stands in the journal.
pub claimed_row :
    (now : ℕ) (j : Journal) (w : Watch) (j' : Journal)
    → claim now j ≡ (some w, j')
    → (u : Watch) × (find (is_watch w.id) j'.watches ≡ some u)
claimed_row now j w j' e =
    let here =
      (claim_of (λ v. Found v.id (swept now j)) now j w j' e (rows-Found (swept now j))).0 in
    let (v, at) = leased-Found now w.id (swept now j) here in
    (v, ap (find (is_watch w.id)) (claim_parts now j w j' e).1 ∙ at)
