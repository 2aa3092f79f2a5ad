-- ===== src/Error.antt =====
-- The errors of internal/parser: a constructor for each `fmt.Errorf`, with what its text quotes.
-- The texts of errors from the standard library stay strings.
use market_replay.Prelude.{String}

-- `strconv.ErrSyntax` and `strconv.ErrRange`
pub data NumError : Type 0 where
  syntax range : NumError

pub data Error : Type 0 where
  empty_line : Error
  decode_json : String → Error
  unknown_event_type : String → Error
  missing_symbol : Error
  event_time_not_positive : Error
  update_ids_missing : Error
  update_ids_reversed : Error
  levels_missing : Error
  trade_time_not_positive : Error
  trade_id_missing : Error
  trade_id_not_positive : Error
  price_or_quantity_missing : Error
  is_buyer_maker_missing : Error
  missing : String → Error
  parse_int_failed : String → NumError → Error
  parse_is_buyer_maker : String → Error
  level_pair_expected : Error
  level_fields_missing : Error
  unsupported_format : String → Error
  unknown_extension : String → Error
  read_csv_header : String → Error
  read_failed : String → Error
