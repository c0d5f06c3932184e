-- ===== src/Util/Validate/Options.antt =====
-- The validators of src/util.cpp that look a text up in a list.
pub mod Exact
use cmm_sdk.Common.{Bool, List, [], ◌∷◌}
use cmm_sdk.Common.Text.{Text, codes, contains, text_eq}

unfoldable pub offsets : List Text
offsets =
    codes "-12:00"
    ∷ codes "-11:00"
    ∷ codes "-10:00"
    ∷ codes "-09:00"
    ∷ codes "-08:00"
    ∷ codes "-07:00"
    ∷ codes "-06:00"
    ∷ codes "-05:00"
    ∷ codes "-04:00"
    ∷ codes "-03:00"
    ∷ codes "-02:00"
    ∷ codes "-01:00"
    ∷ codes "+00:00"
    ∷ codes "+01:00"
    ∷ codes "+02:00"
    ∷ codes "+03:00"
    ∷ codes "+04:00"
    ∷ codes "+05:00"
    ∷ codes "+06:00"
    ∷ codes "+07:00"
    ∷ codes "+08:00"
    ∷ codes "+09:00"
    ∷ codes "+10:00"
    ∷ codes "+11:00"
    ∷ codes "+12:00"
    ∷ []

unfoldable pub validate_datetime_local_offset : Text → Bool
unfolding offsets contains
validate_datetime_local_offset = contains offsets

unfoldable pub severities : List Text
severities =
    codes "Alert"
    ∷ codes "All"
    ∷ codes "Critical"
    ∷ codes "Debug"
    ∷ codes "Emergency"
    ∷ codes "Error"
    ∷ codes "Informational"
    ∷ codes "Notice"
    ∷ codes "Warning"
    ∷ []

unfoldable pub validate_severity : Text → Bool
unfolding severities contains
validate_severity = contains severities

unfoldable pub log_facilities : List Text
log_facilities =
    codes "Auth"
    ∷ codes "Authpriv"
    ∷ codes "Console"
    ∷ codes "Cron"
    ∷ codes "Daemon"
    ∷ codes "FTP"
    ∷ codes "Kern"
    ∷ codes "Local0"
    ∷ codes "Local1"
    ∷ codes "Local2"
    ∷ codes "Local3"
    ∷ codes "Local4"
    ∷ codes "Local5"
    ∷ codes "Local6"
    ∷ codes "Local7"
    ∷ codes "LPR"
    ∷ codes "Mail"
    ∷ codes "News"
    ∷ codes "NTP"
    ∷ codes "Security"
    ∷ codes "SolarisCron"
    ∷ codes "Syslog"
    ∷ codes "User"
    ∷ codes "UUCP"
    ∷ []

unfoldable pub validate_log_facility : Text → Bool
unfolding log_facilities contains
validate_log_facility = contains log_facilities

unfoldable pub dhcpv6_modes : List Text
dhcpv6_modes = codes "Disabled" ∷ codes "Stateful" ∷ codes "Stateless" ∷ []

unfoldable pub validate_dhcpv6_operating_mode : Text → Bool
unfolding dhcpv6_modes contains
validate_dhcpv6_operating_mode = contains dhcpv6_modes
