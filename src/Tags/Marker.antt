-- ===== src/Tags/Marker.antt =====
-- src/tags.rs: invalidation markers: their kinds, revisions and storage form.
use amalgam.Prelude.{ℕ, Bool, true, false, ◌≡◌, ◌↔◌, ◌||◌, ◌==◌, if◌then◌else◌}
use amalgam.Prelude.Assoc.{Eq}
use amalgam.Prelude.Result.{Result, ok, err}
use amalgam.Prelude.Text.{Text, text_eq_iff}
use amalgam.Time.Timestamp.{Timestamp}
use amalgam.Tags.Tag.{Tag, tag_eq}

-- The causes that `backend` and `protocol_with_source` keep are errors of other crates.
pub data MarkerError : Type 0 where
  unsupported blank_wire_version zero_capacity : MarkerError
  scope_capacity : ℕ → MarkerError
  backend : Text → MarkerError
  protocol : Text → MarkerError
  protocol_with_source : Text → MarkerError

pub data MarkerKind : Type 0 where
  tag : Tag → MarkerKind
  clear_expire clear_remove : MarkerKind

-- A revision is a timestamp, compared as one.
abbrev pub MarkerVersion : Type 0
MarkerVersion = Timestamp

pub record StoredMarker : Type 0 where
  pub kind : MarkerKind
  pub version : MarkerVersion

pub data MarkerAdvanceOutcome : Type 0 where
  advanced : StoredMarker → MarkerAdvanceOutcome
  compacted : StoredMarker → MarkerVersion → MarkerAdvanceOutcome

abbrev pub marker : MarkerAdvanceOutcome → StoredMarker
marker (advanced m) = m
marker (compacted m _) = m

pub record MarkerStoreLimits : Type 0 where
  pub max_tags : ℕ
  pub max_scopes : ℕ

unfoldable pub limits : ℕ → ℕ → Result MarkerStoreLimits MarkerError
limits max_tags max_scopes =
    if max_tags == 0 || max_scopes == 0
    then err zero_capacity
    else ok (record { max_tags = max_tags; max_scopes = max_scopes })

abbrev pub default_limits : MarkerStoreLimits
default_limits = record { max_tags = 4096; max_scopes = 1024 }

pub tag_eq_iff : (a b : Tag) → (tag_eq a b ≡ true) ↔ (a ≡ b)
tag_eq_iff a b = (
  (λ h. let p = (text_eq_iff a.text b.text).0 h in λ i. record { text = p i }),
  (λ p. (text_eq_iff a.text b.text).1 (λ i. (p i).text)),
)

instance abbrev pub tag_Eq : Eq Tag
tag_Eq = record { beq = tag_eq; beq_iff = tag_eq_iff }

abbrev pub kind_eq : MarkerKind → MarkerKind → Bool
kind_eq (tag a) (tag b) = tag_eq a b
kind_eq (tag a) clear_expire = false
kind_eq (tag a) clear_remove = false
kind_eq clear_expire (tag b) = false
kind_eq clear_expire clear_expire = true
kind_eq clear_expire clear_remove = false
kind_eq clear_remove (tag b) = false
kind_eq clear_remove clear_expire = false
kind_eq clear_remove clear_remove = true
