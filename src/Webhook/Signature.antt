-- ===== src/Webhook/Signature.antt =====
-- verify and ComputeSignature of internal/webhook/server.go.
use Prim.Native.Char.{code}
use node_box.Prelude.{
  ℕ, zero, suc, ◌+◌, ◌*◌, ◌/◌, ◌%◌, ◌<◌, ◌≡◌, refl, ap, ◌∙◌, true, some, [], ◌∷◌, arith, All,
}
use node_box.Fetch.{Bytes}
use node_box.TextUtil.Replace.Cut.{cut_prefix-concat}
use node_box.Webhook.{
  Host, Server, hex_value, hex_decode, same_bytes, same_mac, verify_value, verify, hex_digit,
  hex_encode, compute_signature,
}

abbrev pub IsBytes : Bytes → Type 0
IsBytes bs = All (λ b. b < 256) bs

hex_value-hex_digit : (n : ℕ) → n < 16 → hex_value (code (hex_digit n)) ≡ some n
unfolding hex_value hex_digit
hex_value-hex_digit zero h = refl
hex_value-hex_digit (suc zero) h = refl
hex_value-hex_digit (suc (suc zero)) h = refl
hex_value-hex_digit (suc (suc (suc zero))) h = refl
hex_value-hex_digit (suc (suc (suc (suc zero)))) h = refl
hex_value-hex_digit (suc (suc (suc (suc (suc zero))))) h = refl
hex_value-hex_digit (suc (suc (suc (suc (suc (suc zero)))))) h = refl
hex_value-hex_digit (suc (suc (suc (suc (suc (suc (suc zero))))))) h = refl
hex_value-hex_digit (suc (suc (suc (suc (suc (suc (suc (suc zero)))))))) h = refl
hex_value-hex_digit (suc (suc (suc (suc (suc (suc (suc (suc (suc zero))))))))) h = refl
hex_value-hex_digit (suc (suc (suc (suc (suc (suc (suc (suc (suc (suc zero)))))))))) h = refl
hex_value-hex_digit (suc (suc (suc (suc (suc (suc (suc (suc (suc (suc (suc zero))))))))))) h = refl
hex_value-hex_digit (suc (suc (suc (suc (suc (suc (suc (suc (suc (suc (suc (suc zero)))))))))))) h =
    refl
hex_value-hex_digit
      (suc (suc (suc (suc (suc (suc (suc (suc (suc (suc (suc (suc (suc zero))))))))))))) h =
    refl
hex_value-hex_digit
      (suc (suc (suc (suc (suc (suc (suc (suc (suc (suc (suc (suc (suc (suc zero)))))))))))))) h =
    refl
hex_value-hex_digit
      (suc (suc (suc (suc (suc (suc (suc (suc (suc (suc (suc (suc (suc (suc (suc zero)))))))))))))))
      h =
    refl
hex_value-hex_digit
      (suc
        (suc (suc (suc (suc (suc (suc (suc (suc (suc (suc (suc (suc (suc (suc (suc n))))))))))))))))
      h =
    absurd (omega (arith, h))

same_bytes_self : (bs : Bytes) → same_bytes bs bs ≡ true
unfolding same_bytes
same_bytes_self [] = refl
same_bytes_self (b ∷ bs) = ground (arith, same_bytes_self bs)

halves : (b : ℕ) → b / 16 * 16 + b % 16 ≡ b
halves b = omega arith

hex_decode-hex_encode : (bs : Bytes) → IsBytes bs → hex_decode (hex_encode bs) ≡ some bs
unfolding hex_decode hex_encode
hex_decode-hex_encode [] h = refl
hex_decode-hex_encode (b ∷ bs) (lt, h) =
    rw
      (
        hex_value-hex_digit (b / 16) (omega (arith, lt)),
        hex_value-hex_digit (b % 16) (omega (arith, lt)),
        hex_decode-hex_encode bs h,
      )
      (ap (λ x. some (x ∷ bs)) (halves b))

pub verify-compute_signature :
    (host : Host) (s : Server) (body : Bytes)
    → IsBytes (host.hmac s.secret body)
    → verify host s (compute_signature host s.secret body) body ≡ true
unfolding verify compute_signature
verify-compute_signature host s body h =
    let mac = host.hmac s.secret body in
    ap (λ o. verify_value o mac) (cut_prefix-concat "sha256=" (hex_encode mac))
    ∙ ap (λ o. same_mac o mac) (hex_decode-hex_encode mac h)
    ∙ same_bytes_self mac
