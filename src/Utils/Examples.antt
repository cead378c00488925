-- ===== src/Utils/Examples.antt =====
-- Concrete texts.
use greek_bot.Prelude.{codes, some, ◌≡◌, refl, arith}
use greek_bot.Utils.Time.Calendar.{Date, Clock, time_of, ok, last_day, is_leap}
use greek_bot.Utils.Time.Parse.{
  parse_iso_timestamp, in_range, parse_rest, parse_decimals, parse_zone, parse_date, two,
  parse_time, digit, parse_clock, parse_offset, four,
}
use greek_bot.Utils.Time.Format.{format_iso_timestamp, format_iso_timestamp_fine}
use greek_bot.Utils.Time.RoundTrip.{parse-format}
use greek_bot.Utils.Base64.Code.{base64_encode, base64_decode, encode_chars, encoded_size, b64char}
use greek_bot.Utils.Base64.RoundTrip.{decode-encode}
use greek_bot.Utils.Snowflake.{from_text, from_int, from_text-decimal}
use greek_bot.Utils.Digits.{scan, decimal}

encode_any : base64_encode (codes "Any?!") ≡ codes "QW55PyE="
unfolding base64_encode encode_chars b64char encoded_size
encode_any = refl

decode-encode_example : base64_decode (base64_encode (codes "Any?!")) ≡ some (codes "Any?!")
decode-encode_example =
    decode-encode (codes "Any?!")
      (omega arith, (omega arith, (omega arith, (omega arith, (omega arith, tt)))))

-- 29 February 2024, 23:59:58.123456.
abbrev leap_day : Date
leap_day = record { year = 2024; month = 2; day = 29 }

abbrev late : Clock
late = record { hours = 23; minutes = 59; seconds = 58 }

leap_day_text : format_iso_timestamp leap_day late 123456 ≡ codes "2024-02-29T23:59:58.123456Z"
unfolding format_iso_timestamp
leap_day_text = refl

parse-format_example :
    parse_iso_timestamp (format_iso_timestamp leap_day late 123456)
    ≡ some (time_of leap_day late 123)
unfolding ok last_day is_leap in_range
parse-format_example = parse-format leap_day late 123456 (omega arith) refl refl (omega arith)

leap_day_nanoseconds :
    format_iso_timestamp_fine leap_day late 123456789 ≡ codes "2024-02-29T23:59:58.123456789Z"
unfolding format_iso_timestamp_fine
leap_day_nanoseconds = refl

-- The same instant in basic format, in a time zone an hour ahead.
basic_zone :
    parse_iso_timestamp (codes "20240301T005958+0100")
    ≡ parse_iso_timestamp (codes "2024-02-29T23:59:58Z")
unfolding parse_iso_timestamp parse_date two digit four parse_rest ok parse_time time_of parse_clock
    parse_decimals in_range parse_zone parse_offset
basic_zone = refl

guild_id_read : from_text (decimal 350234668680871946) ≡ some (from_int 350234668680871946)
guild_id_read = from_text-decimal 350234668680871946 (omega arith)

-- An id with leading zeros is accepted, and its text is cut off.
cut_off :
    from_text (codes "0000000000000000000012")
    ≡ some (record { m_str = codes "00000000000000000000"; m_int = 12 })
unfolding from_text scan
cut_off = refl
