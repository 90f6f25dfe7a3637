-- ===== src/Tools/Sse/Program/Subscriptions.antt =====
-- tools/sse_probe.py: the arguments, the subscriptions and `VARIANTS`.

use homeassistant_2gig_gc.Prelude.{
  ℕ, Bool, true, Option, none, some, List, [], ◌∷◌, ◌++◌, map, Text, codes, text_Eq, ℤ, int_text,
  is_nonzero, Dict, merge, or_default, filter, is_empty, if◌then◌else◌,
}
use homeassistant_2gig_gc.Tools.Http.{rstrip_slash}
use homeassistant_2gig_gc.Tools.Sse.{headers_for}

-- `DEFAULT_PATH`
abbrev pub default_path : Text
default_path = codes "/api/v1/events"

-- The arguments that the probe computes with; times are in milliseconds.
pub record Args : Type 0 where
  pub panel : Option Text
  pub api_key : Option Text
  pub pairing_key : Option Text
  pub path : Text
  pub seconds : ℕ
  pub retry_after : ℕ
  pub partition : ℤ
  pub second_subscriber : Bool
  pub variants : Bool
  pub framing : Text

-- A required argument that is not given, or empty.
abbrev pub lacks : Text × Option Text → Bool
lacks (name, none) = true
lacks (name, some value) = is_empty value

-- The names in the error message of `main`; the probe runs where there is none.
unfoldable pub missing : Args → List Text
missing args =
    map (λ p. p.0)
      (filter lacks (
        (codes "--panel/$PANEL_URL", args.panel)
        ∷ (codes "--api-key/$API_KEY", args.api_key)
        ∷ (codes "--pairing-key/$PAIRING_KEY", args.pairing_key)
        ∷ []))

abbrev pub base_of : Args → Text
base_of args = rstrip_slash (or_default args.panel [])

abbrev pub credentials : Args → Dict Text Text
credentials args = headers_for args.api_key (or_default args.pairing_key [])

-- What one subscriber asks for.
pub record Subscription : Type 0 where
  pub url : Text
  pub params : Option (Dict Text Text)
  pub headers : Dict Text Text

-- `{"partition": str(args.partition)} if args.partition else None`
abbrev pub partition_params : ℤ → Option (Dict Text Text)
partition_params n = if is_nonzero n then some ((codes "partition", int_text n) ∷ []) else none

abbrev pub params_or_default : Args → Option (Dict Text Text) → Option (Dict Text Text)
params_or_default args none = partition_params args.partition
params_or_default args (some params) = some params

-- The request of `stream`.
unfoldable pub subscription :
    Args → Text → Option (Dict Text Text) → Option (Dict Text Text) → Subscription
subscription args path params extra = record {
  url = base_of args ++ path;
  params = params_or_default args params;
  headers = merge (credentials args) (or_default extra []);
}

-- One of `VARIANTS`.
pub record Variant : Type 0 where
  pub label : Text
  pub path : Text
  pub params : Option (Dict Text Text)
  pub extra : Option (Dict Text Text)

abbrev variant : Text → Option (Dict Text Text) → Option (Dict Text Text) → Variant
variant label params extra = record {
  label = label;
  path = default_path;
  params = params;
  extra = extra;
}

-- `VARIANTS`
unfoldable pub all_variants : List Variant
all_variants =
    variant (codes "bare") none none
    ∷ variant (codes "partition1") (some ((codes "partition", codes "1") ∷ [])) none
    ∷ variant (codes "allparts")
        (some ((codes "partition", codes "1") ∷ (codes "allPartitions", codes "true") ∷ [])) none
    ∷ variant (codes "subscribeall") (some ((codes "subscribe", codes "all") ∷ [])) none
    ∷ variant (codes "accept-any") none (some ((codes "Accept", codes "*/*") ∷ []))
    ∷ variant (codes "last-event") none (some ((codes "Last-Event-ID", codes "0") ∷ []))
    ∷ variant (codes "zones-topic") (some ((codes "topic", codes "zones") ∷ [])) none
    ∷ record {
      label = codes "subpath";
      path = default_path ++ codes "/1";
      params = none;
      extra = none;
    }
    ∷ []
