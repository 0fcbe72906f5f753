-- ===== src/Backplane.antt =====
-- src/backplane.rs: the notifications between nodes, as values.
use amalgam.Prelude.{if◌then◌else◌}
use amalgam.Prelude.Text.{Text, trim, is_empty}
use amalgam.Prelude.Result.{Result, ok, err}
use amalgam.Time.Timestamp.{Timestamp}
use amalgam.Tags.Marker.{MarkerError, protocol, StoredMarker}
use amalgam.Tags.Scope.{CacheScope}

pub data BackplaneAction : Type 0 where
  set remove expire : BackplaneAction

pub record BackplaneMessage : Type 0 where
  pub source_id : Text
  pub timestamp : Timestamp
  pub action : BackplaneAction
  pub key : Text

pub record MarkerCommand : Type 0 where
  pub source_id : Text
  pub scope : CacheScope
  pub marker : StoredMarker

-- `MarkerCommand::new`; the detail of the refusal is passed on as a text.
pub marker_command : Text → Text → CacheScope → StoredMarker → Result MarkerCommand MarkerError
marker_command detail source_id scope marker =
    if is_empty (trim source_id)
    then err (protocol detail)
    else ok (record { source_id = source_id; scope = scope; marker = marker })

pub data BackplaneCommand : Type 0 where
  data_command : BackplaneMessage → BackplaneCommand
  marker_notice : MarkerCommand → BackplaneCommand
