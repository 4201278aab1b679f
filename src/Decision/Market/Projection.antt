-- ===== src/Decision/Market/Projection.antt =====
-- proofops/decision/market.py: `project_market`.
use safehire_proofops_bnb.Prelude.{
  ℕ, suc, String, Bool, true, false, not, ◌&&◌, Option, none, some, List, [], ◌∷◌, map, leb, ltb,
  str_eq, if◌then◌else◌, keep, length,
}
use safehire_proofops_bnb.Prelude.Text.{joined}
use safehire_proofops_bnb.Prelude.Members.{member}
use safehire_proofops_bnb.Prelude.Raising.{Raising, ok, err, ◌>>=◌}
use safehire_proofops_bnb.Domain.Canonical.{
  Json, Fields, Items, nil, cons, end, field, null, bool, number, text, list, tuple, dict,
}
use safehire_proofops_bnb.LiveHire.Chain.{get}
use safehire_proofops_bnb.Decision.Market.Catalogue.{Category, catalogue}
use safehire_proofops_bnb.Decision.Market.{
  Python, Freshness, freshness, has_value, Listing, listing_of,
}
use safehire_proofops_bnb.Decision.Market.Ranking.{has_owner, sort_rows}

pub data MarketError : Type 0 where
  -- `TypeError`
  not_iterable unhashable : MarketError
  -- `ValueError`
  two_or_three unknown_id cross_category : MarketError

unfoldable mutual
  pub hashable : Json → Bool
  hashable null = true
  hashable (bool b) = true
  hashable (number n) = true
  hashable (text s) = true
  hashable (list xs) = false
  hashable (tuple xs) = all_hashable xs
  hashable (dict fs) = false

  pub all_hashable : Items → Bool
  all_hashable nil = true
  all_hashable (cons x xs) = hashable x && all_hashable xs

abbrev pub names_of : List Category → List String
names_of cs = map (λ c. c.category_name) cs

-- `category in CATEGORIES`
unfoldable pub category_of : Option Json → Raising MarketError (Option String)
unfolding hashable
category_of none = ok none
category_of (some (text s)) = ok (if member s (names_of catalogue) then some s else none)
category_of (some v) = if hashable v then ok none else err unhashable

unfoldable pub token_of : Python → Option Json → Option ℕ
token_of py (some (number n)) = elim (py.int_of n) [
  | none ↦ none
  | some k ↦ if ltb 0 k then some k else none
]
token_of py _ = none

unfoldable pub skill_of : Option Json → Option String
skill_of (some (text s)) = some s
skill_of _ = none

pub record Candidate : Type 0 where
  pub candidate_item : Fields
  pub candidate_token : ℕ
  pub candidate_skill : String
  pub candidate_category : String

-- The row of an item that is not rejected for its shape.
unfoldable pub candidate_of : Python → Json → Raising MarketError (Option Candidate)
unfolding category_of token_of skill_of
candidate_of py (dict item) = elim (token_of py (get "token_id" item)) [
  | none ↦ ok none
  | some token ↦ elim (skill_of (get "skill_id" item)) [
    | none ↦ ok none
    | some skill ↦ elim (category_of (get "category" item)) [
      | err e ↦ err e
      | ok none ↦ ok none
      | ok (some category) ↦ ok (
          some (record {
            candidate_item = item;
            candidate_token = token;
            candidate_skill = skill;
            candidate_category = category;
          }))
    ]
  ]
]
candidate_of py _ = ok none

abbrev pub id_of : Python → Candidate → String
id_of py c = joined "56:" (py.digits c.candidate_token)

abbrev pub row_of : Python → Fields → ℕ → Candidate → Listing
row_of py raw now c =
    listing_of py raw now c.candidate_item c.candidate_token c.candidate_skill c.candidate_category

-- `rejected += 1`, and `rows.append`
unfoldable pub reject_row :
    Raising MarketError (List Listing × ℕ) → Raising MarketError (List Listing × ℕ)
reject_row (err e) = err e
reject_row (ok (rows, rejected)) = ok (rows, suc rejected)

unfoldable pub show_row :
    Listing → Raising MarketError (List Listing × ℕ) → Raising MarketError (List Listing × ℕ)
show_row r (err e) = err e
show_row r (ok (rows, rejected)) = ok (r ∷ rows, rejected)

-- The loop over the items: the rows, and how many items were rejected.
unfoldable pub rows_from :
    Python → Fields → ℕ → List Json → List String → Raising MarketError (List Listing × ℕ)
unfolding candidate_of reject_row show_row
rows_from py raw now [] seen = ok ([], 0)
rows_from py raw now (item ∷ items) seen = elim (candidate_of py item) [
  | err e ↦ err e
  | ok none ↦ reject_row (rows_from py raw now items seen)
  | ok (some c) ↦ elim (member (id_of py c) seen) [
    | true ↦ reject_row (rows_from py raw now items seen)
    | false ↦ show_row (row_of py raw now c) (rows_from py raw now items (id_of py c ∷ seen))
  ]
]

listed_items : Items → List Json
listed_items nil = []
listed_items (cons x xs) = x ∷ listed_items xs

keys_of : Fields → List Json
keys_of end = []
keys_of (field k v fs) = text k ∷ keys_of fs

letters : String → List Json
letters String.[] = []
letters (String.◌∷◌ c s) = text (String.◌∷◌ c String.[]) ∷ letters s

-- What `for item in raw.get("agents", [])` runs through.
unfoldable pub agents_of : Fields → Raising MarketError (List Json)
unfolding listed_items keys_of letters
agents_of raw = elim (get "agents" raw) [
  | none ↦ ok []
  | some (list xs) ↦ ok (listed_items xs)
  | some (tuple xs) ↦ ok (listed_items xs)
  | some (dict fs) ↦ ok (keys_of fs)
  | some (text s) ↦ ok (letters s)
  | some null ↦ err not_iterable
  | some (bool b) ↦ err not_iterable
  | some (number n) ↦ err not_iterable
]

pub record Coverage : Type 0 where
  pub covered : Category
  pub listing_count : ℕ
  pub analysis_hire_count : ℕ
  pub has_choice : Bool

unfoldable pub coverage_of : List Listing → Category → Coverage
coverage_of rows c =
    let group = keep (λ r. str_eq r.category c.category_name) rows in
    record {
      covered = c;
      listing_count = length group;
      analysis_hire_count = length (keep (λ r. r.hire_available) group);
      has_choice = leb 2 (length group);
    }

distinct : List String → List String
distinct [] = []
distinct (x ∷ xs) = let rest = distinct xs in if member x rest then rest else x ∷ rest

owners_in : List Listing → List String
owners_in [] = []
owners_in (r ∷ rs) = elim r.owner_address [ none ↦ owners_in rs | some o ↦ o ∷ owners_in rs ]

pub record Market : Type 0 where
  pub source_probe : Freshness
  pub refresh_failure : Option Json
  pub listings : List Listing
  pub categories : List Coverage
  pub distinct_owners : ℕ
  pub unresolved_owners : ℕ
  pub operator_labels : ℕ
  pub rejected_rows : ℕ

unfoldable pub project_market : Python → Fields → ℕ → Raising MarketError Market
unfolding rows_from agents_of sort_rows coverage_of distinct owners_in
project_market py raw now = do
  items ← agents_of raw
  found ← rows_from py raw now items []
  let rows = sort_rows found.0
  ok (record {
    source_probe = freshness (py.stamp_of (get "observed_at" raw)) now 60;
    refresh_failure =
        if has_value (get "refresh_error" raw)
        then get "refresh_error" raw
        else get "liveness_error" raw;
    listings = rows;
    categories = map (coverage_of rows) catalogue;
    distinct_owners = length (distinct (owners_in rows));
    unresolved_owners = length (keep (λ r. not (has_owner r)) rows);
    operator_labels = length (distinct (map (λ r. py.folded r.operator_label) rows));
    rejected_rows = found.1;
  })
