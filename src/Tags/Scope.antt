-- ===== src/Tags/Scope.antt =====
-- src/tags.rs: cache scopes, the namespaces of invalidation markers.
use amalgam.Prelude.{Bool, [], ◌∷◌, ◌++◌, ◌&&◌, if◌then◌else◌}
use amalgam.Prelude.Text.{Text, text_eq, trim, is_empty}
use amalgam.Prelude.Result.{Result, ok, err}
use amalgam.Options.Values.{KeyModifierMode, prefix, suffix, unmodified}
use amalgam.Tags.Marker.{MarkerError, blank_wire_version}

pub record CacheScope : Type 0 where
  pub key_prefix : Text
  pub version : Text
  pub modifier : KeyModifierMode
  pub physical_prefix : Text
  pub physical_suffix : Text

abbrev pub physical_parts : KeyModifierMode → Text → Text → Text × Text
physical_parts prefix key_prefix version = (version ++ (b':' ∷ key_prefix), [])
physical_parts suffix key_prefix version = (key_prefix, b':' ∷ version)
physical_parts unmodified key_prefix version = (key_prefix, [])

-- `CacheScope::new`
unfoldable pub scope : Text → Text → KeyModifierMode → Result CacheScope MarkerError
scope key_prefix version modifier =
    if is_empty (trim version)
    then err blank_wire_version
    else ok (record {
      key_prefix = key_prefix;
      version = version;
      modifier = modifier;
      physical_prefix = (physical_parts modifier key_prefix version).0;
      physical_suffix = (physical_parts modifier key_prefix version).1;
    })

-- `PartialEq`: scopes are compared by their physical namespaces.
abbrev pub scope_eq : CacheScope → CacheScope → Bool
scope_eq a b =
    text_eq a.physical_prefix b.physical_prefix && text_eq a.physical_suffix b.physical_suffix
