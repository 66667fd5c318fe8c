-- ===== src/Sidf/Suci/Reading.antt =====
-- `ParseSuci` reads the text that `CipherSuci` writes.
use g_cn_testbed_k8s.Base.{
  ℕ, ◌<◌, ◌≤◌, ◌≡◌, refl, sym, ap, ◌∙◌, List, [], ◌∷◌, ◌++◌, some, Text, arith, codes, length,
  append_assoc, insert, lookup,
}
use g_cn_testbed_k8s.Strconv.Digits.{print}
use g_cn_testbed_k8s.Sidf.Regexp.{
  Regexp, Groups, Next, match, find_submatch, seq, optional, alt, group, at_end,
}
use g_cn_testbed_k8s.Sidf.Suci.{
  parse_suci, suci_text, suci_regex, digit, dash, imsi_type, nai_type, literal, scheme_output,
  routing_indicator, protection_scheme, public_key_id,
}
use g_cn_testbed_k8s.Sidf.Suci.KeyId.{Between, IsKeyId, key_id-Finds}
use g_cn_testbed_k8s.Sidf.Suci.Fields.{
  Hex, Changes, Finds, Takes-Finds, alt-Changes, group-Changes, mcc-Takes, mnc-Takes,
  indicator-Takes, scheme-Finds, find_field, take_output,
}

-- The parts of a SUCI as `CipherSuci` writes it: digits, and hexadecimal text at the end.
pub record Parts : Type 0 where
  pub mcc : List ℕ
  pub mnc : List ℕ
  pub indicator : List ℕ
  pub scheme : ℕ
  pub key_id : List ℕ
  pub output : Text

abbrev pub IsParts : Parts → Type 0
IsParts p =
    Between 3 3 p.mcc
    × Between 2 3 p.mnc
    × Between 1 4 p.indicator
    × (p.scheme < 3)
    × IsKeyId p.key_id
    × Hex p.output
    × (1 ≤ length p.output)

abbrev pub text : Parts → Text
text p =
    suci_text (print p.mcc) (print p.mnc) (print p.indicator) (print (p.scheme ∷ []))
      (print p.key_id) p.output

-- The three digits of an MCC, the digits of an MNC and so on, from their lengths.
mcc-Finds : (ds : List ℕ) → Between 3 3 ds → Finds (seq digit (seq digit digit)) (print ds)
mcc-Finds (a ∷ b ∷ c ∷ []) (h, _, _) = Takes-Finds _ (print (a ∷ b ∷ c ∷ [])) (mcc-Takes a b c h)
mcc-Finds [] (h, l, m) = absurd (omega arith)
mcc-Finds (a ∷ []) (h, l, m) = absurd (omega arith)
mcc-Finds (a ∷ b ∷ []) (h, l, m) = absurd (omega arith)
mcc-Finds (a ∷ b ∷ c ∷ d ∷ ds) (h, l, m) = absurd (omega arith)

mnc-Finds :
    (ds : List ℕ) → Between 2 3 ds → Finds (seq digit (seq digit (optional digit))) (print ds)
mnc-Finds (a ∷ b ∷ ds) (h, l, m) =
    Takes-Finds _ (print (a ∷ b ∷ ds)) (mnc-Takes a b ds h (omega arith))
mnc-Finds [] (h, l, m) = absurd (omega arith)
mnc-Finds (a ∷ []) (h, l, m) = absurd (omega arith)

indicator-Finds :
    (ds : List ℕ)
    → Between 1 4 ds
    → Finds (seq digit (optional (seq digit (optional (seq digit (optional digit)))))) (print ds)
indicator-Finds (a ∷ ds) (h, l, m) =
    Takes-Finds _ (print (a ∷ ds)) (indicator-Takes a ds h (omega arith))
indicator-Finds [] (h, l, m) = absurd (omega arith)

output-found :
    (s : Text) (g : Groups)
    → Hex s
    → 1 ≤ length s
    → match scheme_output s g at_end ≡ some (insert 9 s g)
output-found [] g h l = absurd (omega arith)
output-found (c ∷ s) g h l = take_output c s g h

-- The type of the SUPI with MCC and MNC, which is all one group.
abbrev pub type_of : Parts → Text
type_of p = codes "0-" ++ (print p.mcc ++ b'-' ∷ print p.mnc)

-- The groups that are recorded.
abbrev groups : Parts → Groups
groups p = insert 9 p.output (
    insert 8 (print p.key_id) (
      insert 7 (print (p.scheme ∷ [])) (
        insert 6 (print p.indicator) (
          insert 1 (type_of p)
            (insert 2 (type_of p) (insert 4 (print p.mnc) (insert 3 (print p.mcc) [])))))))

-- What is read behind the type of the SUPI.
abbrev behind : Regexp
behind =
    seq routing_indicator
      (seq dash (seq protection_scheme (seq dash (seq public_key_id (seq dash scheme_output)))))

-- A field that is a group, and what is matched behind the dash.
recorded :
    (n : ℕ) (r after : Regexp) (field rest : Text) (g result : Groups)
    → Finds r field
    → match after rest (insert n field g) at_end ≡ some result
    → match (seq (group n r) (seq dash after)) (field ++ b'-' ∷ rest) g at_end ≡ some result
recorded n r after field rest g result f e =
    find_field (group n r) field (insert n field) (group-Changes r field (λ g'. g') f n) after rest
      g result at_end e

-- The text behind the type of the SUPI.
abbrev behind_text : Parts → Text
behind_text p =
    print p.indicator
    ++ (b'-' ∷ (print (p.scheme ∷ []) ++ (b'-' ∷ (print p.key_id ++ (b'-' ∷ p.output)))))

behind-found :
    (p : Parts) (g : Groups)
    → IsParts p
    → match behind (behind_text p) g at_end
      ≡ some (
          insert 9 p.output (
            insert 8
              (print p.key_id)
              (insert 7 (print (p.scheme ∷ [])) (insert 6 (print p.indicator) g))))
behind-found p g (_, _, hi, hs, hk, ho, hl) =
    recorded 6 _ _ (print p.indicator) _ g _ (indicator-Finds p.indicator hi) (
      recorded 7 _ _ (print (p.scheme ∷ [])) _ _ _ (scheme-Finds p.scheme hs) (
        recorded 8 _ _ (print p.key_id) p.output _ _ (key_id-Finds p.key_id hk)
          (output-found p.output _ ho hl)))

abbrev imsi_body : Regexp
imsi_body =
    seq (group 3 (seq digit (seq digit digit)))
      (seq dash (group 4 (seq digit (seq digit (optional digit)))))

zero_taken :
    (r : Regexp) (s : Text) (g : Groups) (next : Next)
    → match (seq (literal (codes "0-")) r) (b'0' ∷ b'-' ∷ s) g next ≡ match r s g next
unfolding match
zero_taken r s g next = refl

imsi-Changes :
    (p : Parts)
    → IsParts p
    → Changes imsi_type
        (type_of p)
        (λ g. insert 2 (type_of p) (insert 4 (print p.mnc) (insert 3 (print p.mcc) g)))
imsi-Changes p (hc, hn, _, _, _, _, _) =
    group-Changes _ (type_of p) (λ g. insert 4 (print p.mnc) (insert 3 (print p.mcc) g))
      (λ rest g result next n e.
        ap (λ (t : Text). match (seq (literal (codes "0-")) imsi_body) (b'0' ∷ b'-' ∷ t) g next)
          (append_assoc (print p.mcc) (b'-' ∷ print p.mnc) (b'-' ∷ rest))
        ∙ zero_taken imsi_body (print p.mcc ++ (b'-' ∷ (print p.mnc ++ b'-' ∷ rest))) g next
        ∙ find_field _ (print p.mcc) (insert 3 (print p.mcc))
            (group-Changes _ (print p.mcc) (λ g'. g') (mcc-Finds p.mcc hc) 3) _ _ g result next
            (group-Changes _ (print p.mnc) (λ g'. g') (mnc-Finds p.mnc hn) 4 rest _ result next n
              e))
      2

text-found : (p : Parts) → IsParts p → find_submatch suci_regex (text p) ≡ some (groups p)
unfolding find_submatch
text-found p h =
    ap (λ (t : Text). match suci_regex (codes "suci-0-" ++ t) [] at_end)
      (sym (append_assoc (print p.mcc) (b'-' ∷ print p.mnc) (b'-' ∷ behind_text p)))
    ∙ find_field (group 1 (alt imsi_type nai_type)) (type_of p)
        (λ g.
          insert 1 (type_of p)
            (insert 2 (type_of p) (insert 4 (print p.mnc) (insert 3 (print p.mcc) g))))
        (group-Changes (alt imsi_type nai_type) (type_of p)
          (λ g. insert 2 (type_of p) (insert 4 (print p.mnc) (insert 3 (print p.mcc) g)))
          (alt-Changes imsi_type (type_of p)
            (λ g. insert 2 (type_of p) (insert 4 (print p.mnc) (insert 3 (print p.mcc) g)))
            (imsi-Changes p h) nai_type)
          1)
        behind (behind_text p) [] (groups p) at_end (behind-found p _ h)

-- A SUCI as `CipherSuci` writes it, with an MCC of three digits, an MNC of two or three, a routing
-- indicator of one to four, a scheme from 0 to 2, a key id of one or two digits or from 100 to 255, and
-- hexadecimal text that is not empty behind them, is read as these parts; its SUPI type is "0-", MCC, a
-- dash and MNC, and it has no home network id.
pub parse_suci-suci_text :
    (p : Parts)
    → IsParts p
    → parse_suci (text p)
      ≡ some (record {
        supi_type = type_of p;
        mcc = print p.mcc;
        mnc = print p.mnc;
        home_network_id = [];
        routing_indicator = print p.indicator;
        protection_scheme = print (p.scheme ∷ []);
        public_key_id = print p.key_id;
        scheme_output = p.output;
        raw = text p;
      })
unfolding parse_suci insert lookup
parse_suci-suci_text p h = rw (text-found p h, parse_suci) refl
