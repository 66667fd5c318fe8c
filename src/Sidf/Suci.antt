-- ===== src/Sidf/Suci.antt =====
-- SUCIs: the patterns and `ParseSuci` of PacketRusher/internal/common/sidf/suci_deconcealing.go.
pub mod Fields
pub mod KeyId
pub mod Reading
use g_cn_testbed_k8s.Base.{
  ℕ, Bool, true, false, ◌&&◌, ◌||◌, not, List, [], ◌∷◌, ◌++◌, Option, none, some, Text, codes, leb,
  ◌==◌, lookup,
}
use g_cn_testbed_k8s.Sidf.Regexp.{
  Regexp, empty, class, many, seq, alt, optional, group, Groups, find_submatch,
}

abbrev pub is_digit : ℕ → Bool
is_digit c = leb b'0' c && leb c b'9'

abbrev pub is_hex : ℕ → Bool
is_hex c = (leb b'A' c && leb c b'F') || ((leb b'a' c && leb c b'f') || is_digit c)

abbrev pub literal : Text → Regexp
literal [] = empty
literal (c ∷ s) = seq (class (λ x. x == c)) (literal s)

abbrev pub digit : Regexp
digit = class is_digit

abbrev pub dash : Regexp
dash = class (λ c. c == b'-')

-- The groups are numbered in the order of their parentheses.
abbrev pub imsi_type : Regexp
imsi_type = group 2 (
    seq (literal (codes "0-")) (
      seq (group 3 (seq digit (seq digit digit)))
        (seq dash (group 4 (seq digit (seq digit (optional digit)))))))

-- `.` is any byte but the end of a line.
abbrev pub nai_type : Regexp
nai_type = group 5 (seq (literal (codes "1-")) (many (λ c. not (c == 10))))

abbrev pub routing_indicator : Regexp
routing_indicator =
    group 6 (seq digit (optional (seq digit (optional (seq digit (optional digit))))))

abbrev pub protection_scheme : Regexp
protection_scheme = group 7 (class (λ c. leb b'0' c && leb c b'2'))

-- One digit or two, 100 to 199, 200 to 249, and 250 to 255.
abbrev pub key_id : Regexp
key_id = alt (seq digit (optional digit)) (
    alt (seq (class (λ c. c == b'1')) (seq digit digit)) (
      alt (seq (class (λ c. c == b'2')) (seq (class (λ c. leb b'0' c && leb c b'4')) digit))
        (seq (literal (codes "25")) (class (λ c. leb b'0' c && leb c b'5')))))

abbrev pub public_key_id : Regexp
public_key_id = group 8 key_id

abbrev pub scheme_output : Regexp
scheme_output = group 9 (seq (class is_hex) (many is_hex))

-- `suciRegex`
abbrev pub suci_regex : Regexp
suci_regex = seq (literal (codes "suci-")) (
    seq (group 1 (alt imsi_type nai_type)) (
      seq dash (
        seq routing_indicator (
          seq dash
            (seq protection_scheme (seq dash (seq public_key_id (seq dash scheme_output))))))))

pub record Suci : Type 0 where
  pub supi_type : Text
  pub mcc : Text
  pub mnc : Text
  pub home_network_id : Text
  pub routing_indicator : Text
  pub protection_scheme : Text
  pub public_key_id : Text
  pub scheme_output : Text
  pub raw : Text

-- The text of a group, empty where the group has not matched.
abbrev pub text_of : ℕ → Groups → Text
text_of n g = elim (lookup n g) [ none ↦ [] | some s ↦ s ]

-- `ParseSuci`; nil where the input does not match.
unfoldable pub parse_suci : Text → Option Suci
unfolding find_submatch lookup
parse_suci input = elim (find_submatch suci_regex input) [
  | none ↦ none
  | some g ↦ some (record {
    supi_type = text_of 1 g;
    mcc = text_of 3 g;
    mnc = text_of 4 g;
    home_network_id = text_of 5 g;
    routing_indicator = text_of 6 g;
    protection_scheme = text_of 7 g;
    public_key_id = text_of 8 g;
    scheme_output = text_of 9 g;
    raw = input;
  })
]

-- The text of a SUCI, part by part.
abbrev pub suci_text : (mcc mnc routing_indicator scheme key_id output : Text) → Text
suci_text mcc mnc routing_indicator scheme key_id output =
    codes "suci-0-"
    ++ (mcc
        ++ (b'-'
            ∷ (mnc
                ++ (b'-'
                    ∷ (routing_indicator
                        ++ (b'-' ∷ (scheme ++ (b'-' ∷ (key_id ++ (b'-' ∷ output))))))))))
