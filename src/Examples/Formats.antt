-- ===== src/Examples/Formats.antt =====
-- The binary formats of types.js on sample bytes.
use sylica.Base.{
  ℕ, ◌≡◌, refl, List, [], ◌∷◌, ◌++◌, true, take, replicate, encode_le, get_le, decode_le, drop,
  slice, arith, ok, err, ◌>>=◌, some, range_error,
}
use sylica.Examples.{all_bytes, all_bytes-IsBytes}
use sylica.Ctype.{inherited, object, Data, number, member, value}
use sylica.Ctype.Size.{ctype_size}
use sylica.Ctype.Layout.{width, plain_class, plain, plain_type, fresh, has_signer}
use sylica.Ctype.Unpack.{unpack, set, safe, to_bigint, read_bytes}
use sylica.Ctype.Pack.{pack}
use sylica.Ctype.RoundTrip.{unpack_total, unpack_truncated}
use sylica.Types.Snp.{tcb_version}
use sylica.Quote.{unpack_quote, check_quote}
use sylica.Quote.RoundTrip.{check_quote-eq-unpack_quote}

abbrev tcb_bytes : List ℕ
tcb_bytes = 4 ∷ 0 ∷ 0 ∷ 0 ∷ 0 ∷ 0 ∷ 22 ∷ 213 ∷ 99 ∷ []

tcb_plain : plain_class inherited tcb_version ≡ true
unfolding plain_class plain plain_type fresh has_signer width
tcb_plain = refl

tcb_size : ctype_size tcb_version ≡ ok 8
unfolding ctype_size
tcb_size = refl

tcb_bytes-IsBytes : all_bytes tcb_bytes ≡ true
unfolding all_bytes
tcb_bytes-IsBytes = refl

unpack_total_example :
    (d : Data) × (unpack inherited tcb_version tcb_bytes ≡ ok (object tcb_version d))
    × (pack (object tcb_version d) ≡ ok (take 8 tcb_bytes))
unpack_total_example =
    unpack_total inherited tcb_version 8 tcb_bytes tcb_plain tcb_size
      (all_bytes-IsBytes tcb_bytes tcb_bytes-IsBytes) (omega arith)

abbrev short_bytes : List ℕ
short_bytes = 4 ∷ 0 ∷ 0 ∷ []

short_bytes-IsBytes : all_bytes short_bytes ≡ true
unfolding all_bytes
short_bytes-IsBytes = refl

unpack_truncated_example : unpack inherited tcb_version short_bytes ≡ err range_error
unpack_truncated_example =
    unpack_truncated inherited tcb_version 8 short_bytes tcb_plain tcb_size
      (all_bytes-IsBytes short_bytes short_bytes-IsBytes) (omega arith)

-- A version 4 quote with certification data of type 5, and two bytes behind it.
abbrev pub quote_bytes : List ℕ
quote_bytes =
    encode_le 2 4
    ++ (replicate 46 1
        ++ (replicate 584 7
            ++ (replicate 132 9
                ++ (encode_le 2 5 ++ (encode_le 4 3 ++ (65 ∷ 66 ∷ 67 ∷ 0 ∷ 0 ∷ []))))))

pub quote_bytes-IsBytes : all_bytes quote_bytes ≡ true
unfolding all_bytes encode_le replicate
quote_bytes-IsBytes = refl

check_quote-eq-unpack_quote_example : check_quote quote_bytes ≡ unpack_quote quote_bytes
check_quote-eq-unpack_quote_example =
    check_quote-eq-unpack_quote quote_bytes (all_bytes-IsBytes quote_bytes quote_bytes-IsBytes)

quote_bytes_accepted :
    (unpack_quote quote_bytes >>= λ q. ok q.pck_cert_chain_raw) ≡ ok (some (65 ∷ 66 ∷ 67 ∷ []))
unfolding unpack_quote unpack ctype_size encode_le replicate get_le set safe to_bigint decode_le
    take drop read_bytes number member value slice
quote_bytes_accepted = refl
