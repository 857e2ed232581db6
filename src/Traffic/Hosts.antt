-- ===== src/Traffic/Hosts.antt =====
-- `_bucket`, `_fallback_host` and `_host_of` of browser-trace/traffic.py. `urllib.parse.urlsplit`
-- and `str.lower` are the fields of a parameter; `urlsplit` may raise a `ValueError`.
use Prim.Native.String.{◌++◌ as str_append}
use chrome_live.Base.{
  String, Option, none, some, ◌==◌, string_key, length, leb, get_or, if◌then◌else◌,
}
use chrome_live.Base.Exec.{Result, ok, err, value_error}
use chrome_live.Dict.{lookup, insert, contains}
use chrome_live.Traffic.State.{
  HostTotals, Hosts, TabTraffic, max_tracked_hosts, overflow_host, unknown_host,
}

-- The two attributes of `SplitResult` that the module reads.
pub record SplitUrl : Type 0 where
  pub scheme : String
  pub hostname : Option String

-- `none` is a `ValueError`.
pub record UrlLib : Type 0 where
  pub urlsplit : String → Option SplitUrl
  pub lower : String → String

-- `x` that is neither `None` nor empty
abbrev pub non_empty : Option String → Option String
non_empty none = none
non_empty (some x) = if x == "" then none else some x

module _ (lib : UrlLib) where
  -- `hostname.lower() if hostname else d`
  unfoldable pub lower_or : Option String → String → String
  lower_or none d = d
  lower_or (some hostname) d = lib.lower hostname

  unfoldable pub fallback_of : Option SplitUrl → Result String
  unfolding lower_or
  fallback_of none = err value_error
  fallback_of (some parts) = ok (lower_or (non_empty parts.hostname) unknown_host)

  unfoldable pub fallback_host : TabTraffic → Result String
  unfolding fallback_of
  fallback_host tab = if tab.url == "" then ok unknown_host else fallback_of (lib.urlsplit tab.url)

  unfoldable pub host_of_parts : Option SplitUrl → Result String
  unfolding lower_or
  host_of_parts none = err value_error
  host_of_parts (some parts) = ok (
      lower_or (non_empty parts.hostname)
        (if parts.scheme == "" then unknown_host else str_append parts.scheme ":"))

  unfoldable pub host_of : String → Result String
  unfolding host_of_parts
  host_of url = if url == "" then ok unknown_host else host_of_parts (lib.urlsplit url)

abbrev pub fresh_totals : HostTotals
fresh_totals = record { bytes_received = 0; requests = 0 }

-- The key of the entry that `_bucket` returns.
unfoldable pub bucket_key : Hosts → String → String
bucket_key totals host =
    if contains host totals
    then host
    else if leb max_tracked_hosts (length totals)
    then overflow_host
    else host

-- A change of the entry that `_bucket` returns, which is made where it is not there.
unfoldable pub bucket : Hosts → String → (HostTotals → HostTotals) → Hosts
unfolding bucket_key
bucket totals host change =
    let key = bucket_key totals host in
    insert key (change (get_or (lookup key totals) fresh_totals)) totals
