-- ===== src/Http/Url/RoundTrip.antt =====
-- Text in ASCII goes through the escapes of a URL unchanged.
use bomba.Base.{
  ℕ, ◌+◌, ◌*◌, ◌/◌, ◌%◌, ◌<◌, true, false, [], ◌∷◌, ◌++◌, Bytes, All, ◌==◌, leb, some, Bool-cases,
  ◌≡◌, inl, inr, refl, ap, ◌∙◌, arith,
}
use bomba.Http.Url.{
  mangle_http_response, demangle_utf8_url, encode_one, is_unreserved, hex_digit, hex_value,
  hex_pair, contains,
}

hex_value-hex_digit : (n : ℕ) → n < 16 → hex_value (hex_digit n) ≡ some n
unfolding hex_value hex_digit
hex_value-hex_digit n h = ground arith

hex_pair-values :
    (a b x y : ℕ) → hex_value a ≡ some x → hex_value b ≡ some y → hex_pair a b ≡ 16 * x + y
unfolding hex_pair
hex_pair-values a b x y h k = rw (h, hex_pair) (rw k refl)

-- An escaped byte is read back.
demangle-escape :
    (c : ℕ) (rest : Bytes)
    → c < 256
    → demangle_utf8_url 0 (b'%' ∷ hex_digit (c / 16 % 16) ∷ hex_digit (c % 16) ∷ rest)
      ≡ c ∷ demangle_utf8_url 0 rest
unfolding demangle_utf8_url
demangle-escape c rest h =
    ap (λ (n : ℕ). n ∷ demangle_utf8_url 0 rest)
      (hex_pair-values (hex_digit (c / 16 % 16)) (hex_digit (c % 16)) (c / 16 % 16) (c % 16)
          (hex_value-hex_digit (c / 16 % 16) (omega arith))
          (hex_value-hex_digit (c % 16) (omega arith))
        ∙ omega arith)

unreserved-plain : (c : ℕ) → is_unreserved c ≡ true → ((c == b'+') ≡ false) × ((c == b'%') ≡ false)
unfolding is_unreserved contains
unreserved-plain c h = ground arith

demangle-plain :
    (c : ℕ) (rest : Bytes)
    → is_unreserved c ≡ true
    → demangle_utf8_url 0 (c ∷ rest) ≡ c ∷ demangle_utf8_url 0 rest
unfolding demangle_utf8_url
demangle-plain c rest plain =
    rw ((unreserved-plain c plain).0, (unreserved-plain c plain).1, demangle_utf8_url)

demangle-encode_one :
    (c : ℕ) (rest : Bytes)
    → c < 256
    → demangle_utf8_url 0 (encode_one c ++ rest) ≡ c ∷ demangle_utf8_url 0 rest
unfolding encode_one
demangle-encode_one c rest h = elim (Bool-cases (is_unreserved c)) [
  | inl plain ↦ rw plain (demangle-plain c rest plain)
  | inr other ↦ rw other (demangle-escape c rest h)
]

mangle-space :
    (c : ℕ) (cs : Bytes)
    → (c == b' ') ≡ true
    → mangle_http_response 0 (c ∷ cs) ≡ b'+' ∷ mangle_http_response 0 cs
unfolding mangle_http_response
mangle-space c cs h = rw (h, mangle_http_response)

mangle-ascii :
    (c : ℕ) (cs : Bytes)
    → (c == b' ') ≡ false
    → leb c 127 ≡ true
    → mangle_http_response 0 (c ∷ cs) ≡ encode_one c ++ mangle_http_response 0 cs
unfolding mangle_http_response
mangle-ascii c cs h k = rw (h, k, mangle_http_response)

-- Text in ASCII that is escaped for a URL is what `demangleUtf8Url` reads from the escapes.
pub demangle_utf8_url-mangle_http_response :
    (text : Bytes)
    → All (λ c. c < 128) text
    → demangle_utf8_url 0 (mangle_http_response 0 text) ≡ text
unfolding mangle_http_response demangle_utf8_url
demangle_utf8_url-mangle_http_response [] h = refl
demangle_utf8_url-mangle_http_response (c ∷ cs) h =
    let rest = ap (λ (l : Bytes). c ∷ l) (demangle_utf8_url-mangle_http_response cs h.1) in
    elim (Bool-cases (c == b' ')) [
      | inl space ↦
          ap (demangle_utf8_url 0) (mangle-space c cs space)
          ∙ ap (λ (n : ℕ). n ∷ demangle_utf8_url 0 (mangle_http_response 0 cs)) {y = c}
              (ground arith)
          ∙ rest
      | inr other ↦
          ap (demangle_utf8_url 0) (mangle-ascii c cs other (ground (arith, h.0)))
          ∙ demangle-encode_one c (mangle_http_response 0 cs) (omega (arith, h.0))
          ∙ rest
    ]
