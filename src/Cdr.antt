-- ===== src/Cdr.antt =====
-- The records of sessions that are written to files, and the times at which a new file is begun:
-- src/pcrf_cdr.cpp.
pub mod Records
pub mod Rotation
use pcrf.Common.{
  ℕ, ◌+◌, ◌*◌, ◌/◌, ◌%◌, Bool, true, false, Option, none, some, List, [], ◌∷◌, ◌++◌, ltb, ◌==◌,
  if◌then◌else◌,
}
use pcrf.Common.Text.{Text, bytes}
use pcrf.Common.Lists.{length}
use pcrf.Common.Decimal.{decimal}
use pcrf.Types.{OtlText, SessionInfo, initial_request, termination_request}

abbrev pub tab : ℕ
tab = 9

abbrev pub newline : ℕ
newline = 10

-- A number printed into mcString[ 32 ], and passed over where it does not fit.
unfoldable pub number_text : ℕ → Text
number_text n =
    let t = decimal n in if ltb 0 (length t) then (if ltb (length t) 32 then t else []) else []

-- The time stamp, in milliseconds in 64 bits; gettimeofday gives seconds and microseconds, and
-- `none` where it fails.
unfoldable pub time_stamp : Option (ℕ × ℕ) → Text
unfolding number_text
time_stamp none = []
time_stamp (some (sec, usec)) =
    number_text ((sec * 1000 % 18446744073709551616 + usec / 1000) % 18446744073709551616)

unfoldable pub otl_text : OtlText → Text
otl_text o = if o.is_null then [] else o.v

-- m_ui32FramedIPAddress, where it is not -1.
unfoldable pub address_text : ℕ → Text
unfolding number_text
address_text address = if address == 4294967295 then [] else number_text address

-- The part of both kinds of records up to the IMSI.
unfoldable pub common_part : Text → SessionInfo → Option (ℕ × ℕ) → Text
unfolding time_stamp otl_text
common_part start s now =
    ((start ++ s.session_id) ++ (tab ∷ []))
    ++ (time_stamp now ++ (tab ∷ otl_text s.subscription_data.end_user_imsi))

-- pcrf_cdr_make_record: the text, with the number of the Framed-IP-Address.
unfoldable pub make_record : ℕ → SessionInfo → ℕ → Option (ℕ × ℕ) → Text
unfolding common_part address_text
make_record request_type s address now =
    if request_type == initial_request
    then ((((common_part (b'1' ∷ (tab ∷ [])) s now ++ (tab ∷ address_text address))
            ++ (tab ∷ otl_text s.imei))
          ++ (tab ∷ otl_text s.called_station_id))
        ++ (newline ∷ []))
    else if request_type == termination_request
    then common_part (b'3' ∷ (tab ∷ [])) s now ++ (newline ∷ [])
    else []

-- m_iCDRInterval, as pcrf_cdr_recreate_file sets it.
unfoldable pub interval_of : ℕ → ℕ
interval_of configured = if configured == 0 then 60 else configured

-- The second up to which pcrf_cdr_recreate_file waits, by the time of the last file.
unfoldable pub next_time : ℕ → ℕ → ℕ
next_time now interval =
    let t = now + interval in if t % interval == 0 then t else t / interval * interval
