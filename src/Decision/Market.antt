-- ===== src/Decision/Market.antt =====
-- proofops/decision/market.py: a row of the market that is shown. A time is in
-- microseconds since 1970. A field that is the same in every row is left out.
pub mod Accounts
pub mod Candidates
pub mod Catalogue
pub mod Compare
pub mod Offered
pub mod Projection
pub mod Ranking
pub mod Refresh
pub mod Rows
pub mod SnapshotCache
use Prim.Native.Char.{code}
use safehire_proofops_bnb.Prelude.{
  ℕ, ◌+◌, ◌-◌, ◌*◌, String, Bool, true, false, not, ◌&&◌, ◌||◌, Option, none, some, List, [], ◌∷◌,
  ◌++◌, ◌==◌, leb, ltb, str_eq, if◌then◌else◌,
}
use safehire_proofops_bnb.Prelude.Text.{lower, joined}
use safehire_proofops_bnb.Domain.Canonical.{
  Json, Fields, end, null, bool, number, text, list, tuple, dict,
}
use safehire_proofops_bnb.LiveHire.Chain.{get, truthy}
use safehire_proofops_bnb.LiveHire.Delivery.{all_hex, is_hash}
use safehire_proofops_bnb.Decision.Market.Catalogue.{Review, review_in, reviews}

-- The library's functions: `int` of a literal that is not negative, `datetime.fromisoformat` of a
-- date with its zone, `str`, and `strip` with `casefold`.
pub record Python : Type 0 where
  pub int_of : String → Option ℕ
  pub stamp_of : Option Json → Option ℕ
  pub shown : Json → String
  pub digits : ℕ → String
  pub folded : String → String

-- With the age of the source.
pub data Freshness : Type 0 where
  fresh stale : ℕ → Freshness
  no_age : Freshness

unfoldable pub freshness : Option ℕ → ℕ → ℕ → Freshness
freshness none now ttl = no_age
freshness (some stamp) now ttl =
    if ltb (now + 5_000_000) stamp
    then no_age
    else if leb now (stamp + ttl * 1_000_000)
    then fresh (now - stamp)
    else stale (now - stamp)

abbrev pub is_fresh : Freshness → Bool
is_fresh (fresh age) = true
is_fresh (stale age) = false
is_fresh no_age = false

-- `^0x[0-9a-fA-F]{40}$`
unfoldable pub is_wallet : String → Bool
is_wallet (String.◌∷◌ z (String.◌∷◌ x s)) = code z == b'0' && (code x == b'x' && all_hex 40 s)
is_wallet _ = false

unfoldable pub owner_key : Option Json → Option String
unfolding is_wallet
owner_key (some (text s)) = if is_wallet s then some (lower s) else none
owner_key _ = none

-- `value is True`
abbrev pub is_true : Option Json → Bool
is_true (some (bool b)) = b
is_true _ = false

-- `.get`, and whether what it returns is truthy
abbrev pub has_value : Option Json → Bool
has_value none = false
has_value (some v) = truthy v

pub record Listing : Type 0 where
  pub id : String
  pub token_id : ℕ
  pub skill_id : String
  pub name : String
  pub category : String
  pub description : String
  pub operator_label : String
  pub owner_address : Option String
  pub registration_present : Bool
  pub registration_tx : Option Json
  pub probe : Freshness
  pub callable : Bool
  pub index_available : Bool
  pub index_freshness : Freshness
  pub capability : String
  pub category_fit : Bool
  pub hire_available : Bool
  pub hire_url : Option String
  pub evidence_gaps : List String
  pub signal_disagreement : Option Json
  pub registration_url : Option String

-- Each reason whose condition holds, in front of the others.
unfoldable pub reasons : List (Bool × String) → List String → List String
reasons [] others = others
reasons ((holds, reason) ∷ rest) others =
    let more = reasons rest others in if holds then reason ∷ more else more

-- `str(value or other)`
abbrev pub shown_or : Python → Option Json → String → String
shown_or py (some v) other = if truthy v then py.shown v else other
shown_or py none other = other

abbrev pub url_when : Bool → String → Option String
url_when true s = some s
url_when false s = none

-- `signals if isinstance(signals, Mapping) else {}`
abbrev pub mapping_of : Option Json → Fields
mapping_of (some (dict fs)) = fs
mapping_of _ = end

-- `str(item.get("created_tx_hash", ""))` matches `TX_HASH`; of the other values none is printed so.
abbrev pub is_registration : Option Json → Bool
is_registration (some (text s)) = is_hash s
is_registration _ = false

abbrev pub hash_text : Option Json → String
hash_text (some (text s)) = s
hash_text _ = ""

-- `reviewed is not None and reviewed[0] == category`
abbrev pub has_scope : Option Review → String → Bool
has_scope none category = false
has_scope (some r) category = str_eq r.reviewed_category category

abbrev pub has_fit : Option Review → String → Bool
has_fit none category = false
has_fit (some r) category = str_eq r.reviewed_category category && r.fits_category

abbrev pub scope_of : Option Review → String → String
scope_of none category = "unreviewed"
scope_of (some r) category =
    if str_eq r.reviewed_category category then r.reviewed_capability else "unreviewed"

abbrev pub is_missing : Option String → Bool
is_missing none = true
is_missing (some o) = false

-- `callable_now`
unfoldable pub is_callable : Python → Fields → ℕ → Fields → Bool
is_callable py raw now item =
    is_true (get "currently_callable" item)
    && (is_true (get "endpoint_reachable" raw)
        && (is_fresh (freshness (py.stamp_of (get "observed_at" raw)) now 60)
            && not (has_value (get "refresh_error" raw))))

-- A row of the market for an item with its token, skill and category.
unfoldable pub listing_of : Python → Fields → ℕ → Fields → ℕ → String → String → Listing
unfolding is_callable reasons
listing_of py raw now item token skill category =
    let source_age = freshness (py.stamp_of (get "observed_at" raw)) now 60 in
    let signals = mapping_of (get "market_signals" item) in
    let available = is_true (get "available" signals) in
    let owner = if available then owner_key (get "owner_address" signals) else none in
    let reviewed = review_in token skill reviews in
    let reviewed_ok = has_scope reviewed category in
    let fit = has_fit reviewed category in
    let registration = is_registration (get "created_tx_hash" item) in
    let callable_now = is_callable py raw now item in
    let eligible = callable_now && (reviewed_ok && registration) in
    let unresolved = is_missing owner in
    record {
      id = joined "56:" (py.digits token);
      token_id = token;
      skill_id = skill;
      name = shown_or py (get "name" item) skill;
      category = category;
      description = shown_or py (get "description" item) "";
      operator_label =
          shown_or py (get "operator" item) (shown_or py (get "operator" raw) "Unknown");
      owner_address = owner;
      registration_present = registration;
      registration_tx = get "created_tx_hash" item;
      probe = source_age;
      callable = callable_now;
      index_available = available;
      index_freshness = freshness (py.stamp_of (get "endpoint_last_checked_at" signals)) now 300;
      capability = elim reviewed [
        | none ↦ "unreviewed"
        | some r ↦ if reviewed_ok then r.reviewed_capability else "unreviewed"
      ];
      category_fit = fit;
      hire_available = eligible;
      hire_url = url_when eligible (joined "/hire-live?skill_id=" skill);
      evidence_gaps =
          reasons
            ((not (is_fresh source_age), "fresh_A2A_probe_required")
              ∷ (not callable_now, "no_current_callable_service")
              ∷ (not reviewed_ok, "provider_adapter_not_reviewed")
              ∷ (unresolved, "owner_unresolved")
              ∷ (not registration, "registration_reference_missing")
              ∷ (not fit, "official_category_scope_gap")
              ∷ [])
            ("paid_outcome_not_replayed" ∷ "execution_not_demonstrated" ∷ []);
      signal_disagreement = get "signal_disagreement" item;
      registration_url =
          url_when registration
            (joined "https://bscscan.com/tx/" (hash_text (get "created_tx_hash" item)));
    }
