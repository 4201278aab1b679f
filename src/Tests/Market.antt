-- ===== src/Tests/Market.antt =====
-- Runs of proofops/decision/market.py: the literals are those of the two agents.
use safehire_proofops_bnb.Prelude.{
  ℕ, ◌+◌, ◌≤◌, ◌<◌, map, String, ◌≡◌, refl, true, false, none, some, List, [], ◌∷◌, length, ◌==◌,
  str_eq, if◌then◌else◌, arith, All,
}
use safehire_proofops_bnb.Prelude.Text.{lower}
use safehire_proofops_bnb.Prelude.Raising.{ok, err}
use safehire_proofops_bnb.Domain.Canonical.{
  Json, Fields, end, field, dict, list, bool, number, text, nil, cons, null,
}
use safehire_proofops_bnb.Prelude.Members.{Listed, AreApart, member}
use safehire_proofops_bnb.LiveHire.Chain.{get}
use safehire_proofops_bnb.Decision.Market.{Python, listing_of, no_age, freshness}
use safehire_proofops_bnb.Decision.Market.Catalogue.{review_in}
use safehire_proofops_bnb.LiveHire.Delivery.{is_hash}
use safehire_proofops_bnb.Decision.Market.Rows.{ids}
use safehire_proofops_bnb.Decision.Market.Projection.{Market, project_market, agents_of}
use safehire_proofops_bnb.Decision.Market.Accounts.{total, project_market-Accounts}
use safehire_proofops_bnb.Decision.Market.Compare.{
  Comparison, Within, compare_market, compare_market-Comparable,
}
use safehire_proofops_bnb.Decision.Market.Offered.{IsBacked, offered-IsBacked}
use safehire_proofops_bnb.Decision.Market.Refresh.{IsKept, failed_refresh_offers_nothing}
use safehire_proofops_bnb.Decision.Market.SnapshotCache.{Cache, caught, unexpired, get_snapshot}

abbrev hash : String
hash = "0x0000000000000000000000000000000000000000000000000000000000000000"

abbrev python : Python
python = record {
  int_of = λ s. if str_eq s "302258" then some 302258 else if str_eq s "9" then some 9 else none;
  stamp_of = λ v. elim v [ some (number n) ↦ some 1_000_000 | _ ↦ none ];
  shown = λ v. elim v [ text s ↦ s | _ ↦ "?" ];
  digits = λ n. if n == 9 then "9" else "302258";
  folded = lower;
}

abbrev reviewed_agent : Json
reviewed_agent = dict (
    field "token_id" (number "302258") (
      field "skill_id" (text "grid_plan") (
        field "category" (text "grid_trading")
          (field "currently_callable" (bool true) (field "created_tx_hash" (text hash) end)))))

abbrev other_agent : Json
other_agent = dict (
    field "token_id" (number "9")
      (field "skill_id" (text "grids") (field "category" (text "grid_trading") end)))

abbrev observed : Fields
observed =
    field "agents"
      (list (cons other_agent (cons reviewed_agent (cons null (cons reviewed_agent nil)))))
      (field "observed_at" (number "1") (field "endpoint_reachable" (bool true) end))

abbrev nothing_seen : Market
nothing_seen = record {
  source_probe = no_age;
  refresh_failure = none;
  listings = [];
  categories = [];
  distinct_owners = 0;
  unresolved_owners = 0;
  operator_labels = 0;
  rejected_rows = 0;
}

abbrev seen : Market
seen = elim (project_market python observed 2_000_000) [ ok m ↦ m | err e ↦ nothing_seen ]

listed_and_rejected :
    (ids seen.listings ≡ "56:302258" ∷ "56:9" ∷ [])
    × (seen.rejected_rows ≡ 2)
    × (map (λ r. r.hire_available) seen.listings ≡ true ∷ false ∷ [])
unfolding project_market listing_of get lower member freshness review_in is_hash
listed_and_rejected = (refl, refl, refl)

project_market-Accounts_example :
    (items : List Json) × (agents_of observed ≡ ok items)
    × (length seen.listings + seen.rejected_rows ≡ length items)
    × AreApart (ids seen.listings)
    × (total seen.categories ≡ length seen.listings)
unfolding project_market listing_of get lower member freshness review_in is_hash
project_market-Accounts_example = project_market-Accounts python observed 2_000_000 seen refl

offered-IsBacked_example :
    All
      (λ r.
        IsBacked python observed 2_000_000 r × Listed "execution_not_demonstrated" r.evidence_gaps)
      seen.listings
unfolding project_market listing_of get lower member freshness review_in is_hash
offered-IsBacked_example = offered-IsBacked python observed 2_000_000 seen refl

abbrev compared : Comparison
compared = record { compared_category = "grid_trading"; compared = seen.listings }

compare_market-Comparable_example :
    (2 ≤ length compared.compared)
    × (length compared.compared ≤ 3)
    × AreApart (ids compared.compared)
    × (ids compared.compared ≡ "56:302258" ∷ "56:9" ∷ [])
    × All (λ r. Within r seen.listings) compared.compared
    × All (λ r. r.category ≡ compared.compared_category) compared.compared
unfolding compare_market project_market listing_of get lower member freshness review_in is_hash
compare_market-Comparable_example =
    compare_market-Comparable seen ("56:302258" ∷ "56:9" ∷ []) compared refl

abbrev warm : Cache
warm = record { value = some observed; expires = some 20 }

failed_refresh_offers_nothing_example :
    (v : Fields) × (c' : Cache) × (get_snapshot 20 21 21 (caught "TimeoutError") 46 warm
      ≡ ok (v, c'))
    × IsKept warm v
    × ((later : ℕ) → later < 66 → unexpired later c' ≡ some v)
    × ((py : Python) (at : ℕ) (m : Market)
        → project_market py v at ≡ ok m
        → All (λ r. (r.callable ≡ false) × (r.hire_available ≡ false)) m.listings)
unfolding unexpired
failed_refresh_offers_nothing_example =
    failed_refresh_offers_nothing 20 21 21 46 (caught "TimeoutError") warm (omega arith) refl tt
