-- ===== src/Necp/Laws.antt =====
-- On necp_client_agent of fuzz/handlers/necp.cc, and a reader of the bytes that it makes.
use sock_fuzzer.Common.{
  ℕ, zero, suc, List, [], ◌∷◌, ◌++◌, append-nil, append_assoc, length, length-append, take, All,
  Option, none, some, true, if◌then◌else◌, leb, ◌≡◌, refl, ap, sym, ◌∙◌, ◌<◌, ◌+◌, ◌*◌, ◌/◌, ◌%◌,
  ◌^◌, arith,
}
use sock_fuzzer.Necp.{
  NecpClientId, client_0, client_1, client_2, get_necp_client, filled, NecpCall, NecpTlv, encode,
  append_tlvs, agent, do_necp_client_action,
}

abbrev drop : ℕ → List ℕ → List ℕ
drop zero xs = xs
drop (suc n) [] = []
drop (suc n) (x ∷ xs) = drop n xs

take-append : (xs ys : List ℕ) → take (length xs) (xs ++ ys) ≡ xs
take-append [] ys = refl
take-append (x ∷ xs) ys = ap (λ rest. x ∷ rest) (take-append xs ys)

drop-append : (xs ys : List ℕ) → drop (length xs) (xs ++ ys) ≡ ys
drop-append [] ys = refl
drop-append (x ∷ xs) ys = drop-append xs ys

-- Reading entries until the bytes end: a type, a length of four bytes, the low one first, and as many
-- bytes of data; none if the bytes end within an entry, or there are more entries than `most`.
abbrev pub decode : (most : ℕ) → List ℕ → Option (List NecpTlv)
decode zero [] = some []
decode zero (x ∷ xs) = none
decode (suc most) (necp_type ∷ a ∷ b ∷ c ∷ d ∷ rest) =
    let size = a + 256 * b + 65536 * c + 16777216 * d in
    let entry : NecpTlv = record { necp_type = necp_type; bytes = take size rest } in
    let entries = decode most (drop size rest) in
    if leb size (length rest)
    then (elim entries [ none ↦ none | some tlvs ↦ some (entry ∷ tlvs) ])
    else none
decode (suc most) [] = some []
decode (suc most) _ = none

-- The type fits in a byte, and the length in four.
abbrev pub Fits : NecpTlv → Type 0
Fits tlv = (tlv.necp_type < 256) × (length tlv.bytes < 2 ^ 32)

abbrev encode_all : List NecpTlv → List ℕ
encode_all [] = []
encode_all (tlv ∷ tlvs) = encode tlv ++ encode_all tlvs

append_tlvs-encode_all :
    (done : List ℕ) (tlvs : List NecpTlv) → append_tlvs done tlvs ≡ done ++ encode_all tlvs
append_tlvs-encode_all done [] = sym (append-nil done)
append_tlvs-encode_all done (tlv ∷ tlvs) =
    append_tlvs-encode_all (done ++ encode tlv) tlvs
    ∙ append_assoc done (encode tlv) (encode_all tlvs)

decode-encode :
    (most : ℕ) (tlv : NecpTlv) (rest : List ℕ) (tlvs : List NecpTlv)
    → Fits tlv
    → decode most rest ≡ some tlvs
    → decode (suc most) (encode tlv ++ rest) ≡ some (tlv ∷ tlvs)
unfolding encode
decode-encode most tlv rest tlvs fits later =
    let n : ℕ = length tlv.bytes in
    let whole : n % 256
          + 256 * (n / 256 % 256)
          + 65536 * (n / 256 / 256 % 256)
          + 16777216 * (n / 256 / 256 / 256 % 256)
        ≡ n =
      omega (arith, fits.1) in
    let kind : tlv.necp_type % 256 ≡ tlv.necp_type = omega (arith, fits.0) in
    let inside : leb n (length (tlv.bytes ++ rest)) ≡ true =
      ground (arith, length-append tlv.bytes rest) in
    rw (whole, inside, drop-append tlv.bytes rest, later, whole, take-append tlv.bytes rest, kind)
      refl

decode-encode_all :
    (tlvs : List NecpTlv) → All Fits tlvs → decode (length tlvs) (encode_all tlvs) ≡ some tlvs
decode-encode_all [] fits = refl
decode-encode_all (tlv ∷ tlvs) fits =
    decode-encode (length tlvs) tlv (encode_all tlvs) tlvs fits.0 (decode-encode_all tlvs fits.1)

sixteen : (client : NecpClientId) → length (get_necp_client client) ≡ 16
sixteen client_0 = refl
sixteen client_1 = refl
sixteen client_2 = refl

-- A request of the kind agent, whose entries have types of 8 bits and data shorter than 2 ^ 32, ends in a
-- call whose buffer is read back as just these entries, in their order. The call names the client by 16 bytes.
pub necp_client_agent-decode :
    (fd : ℕ) (client : NecpClientId) (tlvs : List NecpTlv)
    → All Fits tlvs
    → (call : NecpCall) × (bytes : List ℕ) × (do_necp_client_action fd client (agent tlvs)
        ≡ some call)
      × (call.buffer ≡ filled bytes)
      × (decode (length tlvs) bytes ≡ some tlvs)
      × (length call.client_id ≡ 16)
unfolding do_necp_client_action
necp_client_agent-decode fd client tlvs fits = (
  _,
  append_tlvs [] tlvs,
  refl,
  refl,
  ap (decode (length tlvs)) (append_tlvs-encode_all [] tlvs) ∙ decode-encode_all tlvs fits,
  sixteen client,
)
