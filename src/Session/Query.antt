-- ===== src/Session/Query.antt =====
-- The URL parameters that `Dial` of pkg/petlibro/client.go reads. A text is the list of its bytes, and
-- a parameter that is absent is the empty text.
pub mod Decimal
use ha_addon_petlibro_local.Prelude.{
  ℕ, ◌+◌, ◌-◌, ◌*◌, Bool, true, false, not, ◌&&◌, ◌||◌, Option, none, some, List, [], ◌∷◌,
  if◌then◌else◌, ltb, leb, ◌==◌, length, codes,
}
use ha_addon_petlibro_local.Assembler.Output.{equal_bytes}
use ha_addon_petlibro_local.Session.Commands.{
  StreamCtrlVariant, legacy, standard, no_stream_ctrl, Options,
}

pub record Query : Type 0 where
  pub uid : List ℕ
  pub quality : List ℕ
  pub streamctrl_variant : List ℕ
  pub streamctrl_quality : List ℕ
  pub hd_probe_wait_ms : List ℕ
  pub audio : List ℕ
  pub strict : List ℕ
  pub verbose : List ℕ
  pub trace_ack : List ℕ
  pub send_delay_ctrl : List ℕ
  pub status_file : List ℕ

abbrev pub is_text : List ℕ → List ℕ → Bool
is_text s t = equal_bytes s t

-- `strconv.ParseUint(text, 10, …)` for numbers up to `max`; the value is none on every error.
unfoldable pub parse_digits : List ℕ → ℕ → Option ℕ
parse_digits [] acc = some acc
parse_digits (d ∷ ds) acc =
    let rest = parse_digits ds (acc * 10 + (d - 48)) in if leb 48 d && leb d 57 then rest else none

unfoldable pub at_most : ℕ → Option ℕ → Option ℕ
at_most max none = none
at_most max (some n) = if ltb max n then none else some n

unfoldable pub parse_uint : ℕ → List ℕ → Option ℕ
unfolding parse_digits at_most
parse_uint max text = if length text == 0 then none else at_most max (parse_digits text 0)

-- `strconv.ParseBool`, whose value is false on an error.
unfoldable pub parse_bool : List ℕ → Bool
parse_bool text =
    is_text text (codes "1")
    || is_text text (codes "t")
    || is_text text (codes "T")
    || is_text text (codes "TRUE")
    || is_text text (codes "true")
    || is_text text (codes "True")

unfoldable pub bool_query : List ℕ → Bool
unfolding parse_bool
bool_query text = if length text == 0 then false else parse_bool text

unfoldable pub parse_stream_ctrl_variant : List ℕ → Option StreamCtrlVariant
parse_stream_ctrl_variant text =
    if length text == 0 || is_text text (codes "legacy")
    then some legacy
    else if is_text text (codes "standard")
    then some standard
    else if is_text text (codes "none")
    then some no_stream_ctrl
    else none

unfoldable pub parse_stream_ctrl_quality : List ℕ → List ℕ → Option ℕ
unfolding parse_uint
parse_stream_ctrl_quality text quality =
    if length text == 0
    then some (if is_text quality (codes "sd") then 2 else 1)
    else parse_uint 255 text

-- Milliseconds. A number of 16 bits is parsed first, and then bounded.
unfoldable pub parse_hd_probe_wait : List ℕ → Option ℕ
unfolding parse_uint at_most
parse_hd_probe_wait text =
    if length text == 0 || is_text text (codes "0")
    then some 0
    else at_most 60000 (parse_uint 65535 text)

-- What `Dial` takes from the parameters.
pub record Config : Type 0 where
  pub options : Options
  pub hd : Bool
  pub hd_probe_wait_ms : ℕ
  pub strict : Bool
  pub verbose : Bool
  pub trace_ack : Bool
  pub has_status : Bool

pub data QueryError : Type 0 where
  no_uid uid_size bad_variant bad_quality bad_wait : QueryError

pub data Checked : Type 0 where
  checked : Config → Checked
  rejected : QueryError → Checked

unfoldable pub quality_of : Query → List ℕ
quality_of q = if length q.quality == 0 then codes "hd" else q.quality

unfoldable pub configure : Query → StreamCtrlVariant → ℕ → ℕ → Config
unfolding quality_of bool_query
configure q variant quality wait_ms = record {
  options = record {
    audio = bool_query q.audio;
    sd = is_text (quality_of q) (codes "sd");
    send_delay_ctrl = bool_query q.send_delay_ctrl;
    stream_ctrl_variant = variant;
    stream_ctrl_quality = quality;
  };
  hd = is_text (quality_of q) (codes "hd");
  hd_probe_wait_ms = wait_ms;
  strict = bool_query q.strict;
  verbose = bool_query q.verbose;
  trace_ack = bool_query q.trace_ack;
  has_status = not (length q.status_file == 0);
}

-- The checks after that of the UID, in their order.
unfoldable pub check_options : Query → Option StreamCtrlVariant → Option ℕ → Option ℕ → Checked
unfolding configure
check_options q none quality wait_ms = rejected bad_variant
check_options q (some variant) none wait_ms = rejected bad_quality
check_options q (some variant) (some quality) none = rejected bad_wait
check_options q (some variant) (some quality) (some wait_ms) =
    checked (configure q variant quality wait_ms)

unfoldable pub check_query : Query → Checked
unfolding check_options parse_stream_ctrl_variant parse_stream_ctrl_quality parse_hd_probe_wait
check_query q =
    if length q.uid == 0
    then rejected no_uid
    else if not (length q.uid == 20)
    then rejected uid_size
    else check_options q (parse_stream_ctrl_variant q.streamctrl_variant)
        (parse_stream_ctrl_quality q.streamctrl_quality (quality_of q))
        (parse_hd_probe_wait q.hd_probe_wait_ms)
