-- ===== src/Netparse/Tls/Prefixes.antt =====
-- A name that is found in the first bytes of a connection is the name that all of them give.
use bound_gate_vpn.Prelude.{
  ℕ, zero, suc, ◌+◌, ◌-◌, ◌*◌, ◌≡◌, ◌≤◌, ◌<◌, refl, Bool, true, false, arith, Bytes, length, Run,
  done, panic, ◌>>=◌, [], ◌∷◌, ◌++◌, take, drop, get_or, length-append, length-drop, ap,
}
use bound_gate_vpn.Netparse.Tls.{
  SniResult, not_tls, no_name, need_more, found, read_extensions, read_methods, read_suites,
  parse_client_hello, if_found, read_body, client_hello_sni,
}

get_or-append : (b m : Bytes) (i : ℕ) → i < length b → get_or (b ++ m) i 0 ≡ get_or b i 0
get_or-append [] m i h = absurd (omega arith)
get_or-append (x ∷ b) m zero h = refl
get_or-append (x ∷ b) m (suc i) h = get_or-append b m i (omega arith)

take-append : (n : ℕ) (b m : Bytes) → n ≤ length b → take n (b ++ m) ≡ take n b
take-append zero b m h = refl
take-append (suc n) [] m h = absurd (omega arith)
take-append (suc n) (x ∷ b) m h = rw (take-append n b m (omega arith))

drop-append : (n : ℕ) (b m : Bytes) → n ≤ length b → drop n (b ++ m) ≡ drop n b ++ m
drop-append zero b m h = refl
drop-append (suc n) [] m h = absurd (omega arith)
drop-append (suc n) (x ∷ b) m h = drop-append n b m (omega arith)

slice-append :
    (b m : Bytes) (i j : ℕ)
    → i ≤ j
    → j ≤ length b
    → take (j - i) (drop i (b ++ m)) ≡ take (j - i) (drop i b)
slice-append b m i j p q =
    rw (drop-append i b m (omega arith))
      (take-append (j - i) (drop i b) m (omega (arith, length-drop {0} i b)))

module _ (b m name : Bytes) (complete complete' : Bool) where
  read_extensions-append :
      (fuel fuel' end off : ℕ)
      → fuel ≤ fuel'
      → read_extensions fuel b complete end off ≡ done (found name)
      → read_extensions fuel' (b ++ m) complete' end off ≡ done (found name)
  unfolding read_extensions
  read_extensions-append zero fuel' end off le h = absurd (ground arith)
  read_extensions-append (suc fuel) zero end off le h = absurd (omega arith)
  read_extensions-append (suc fuel) (suc fuel') end off le h =
      let l = get_or b (off + 2) 0 * 256 + get_or b (off + 2 + 1) 0 in
      ground (
        arith,
        length-append b m,
        get_or-append b m off,
        get_or-append b m (off + 1),
        get_or-append b m (off + 2),
        get_or-append b m (off + 2 + 1),
        slice-append b m (off + 4) (off + 4 + l),
        read_extensions-append fuel fuel' end (off + 4 + l),
      )

  read_methods-append :
      (off : ℕ)
      → read_methods b complete off ≡ done (found name)
      → read_methods (b ++ m) complete' off ≡ done (found name)
  unfolding read_methods
  read_methods-append off h =
      let exts = off + 1 + get_or b off 0 in
      let end = exts + 2 + (get_or b exts 0 * 256 + get_or b (exts + 1) 0) in
      ground (
        arith,
        length-append b m,
        get_or-append b m off,
        get_or-append b m exts,
        get_or-append b m (exts + 1),
        read_extensions-append (suc (length b)) (suc (length (b ++ m))) end (exts + 2),
      )

  read_suites-append :
      (off : ℕ)
      → read_suites b complete off ≡ done (found name)
      → read_suites (b ++ m) complete' off ≡ done (found name)
  unfolding read_suites
  read_suites-append off h = ground (
    arith,
    length-append b m,
    get_or-append b m off,
    get_or-append b m (off + 1),
    read_methods-append (off + 2 + (get_or b off 0 * 256 + get_or b (off + 1) 0)),
  )

  parse_client_hello-append :
      parse_client_hello b complete ≡ done (found name)
      → parse_client_hello (b ++ m) complete' ≡ done (found name)
  unfolding parse_client_hello
  parse_client_hello-append h = ground (
    arith,
    length-append b m,
    get_or-append b m 0,
    get_or-append b m 34,
    read_suites-append (34 + 1 + get_or b 34 0),
  )

-- The first `n` bytes of a longer message.
take_past : (n : ℕ) (b m : Bytes) → length b ≤ n → take n (b ++ m) ≡ b ++ take (n - length b) m
take_past zero [] m h = refl
take_past zero (x ∷ b) m h = absurd (omega arith)
take_past (suc n) [] m h = let e : suc n ≡ suc n - 0 = omega arith in ap (λ t. take t m) e
take_past (suc n) (x ∷ b) m h =
    let e : n - length b ≡ suc n - suc (length b) = omega arith in
    rw (take_past n b m (omega arith)) (ap (λ t. x ∷ (b ++ take t m)) e)

found_partial :
    (r : Run SniResult) (name : Bytes)
    → (r >>= λ s. done (if_found s)) ≡ done (found name)
    → r ≡ done (found name)
found_partial panic name h = h
found_partial (done (found n)) name h = h
found_partial (done not_tls) name h = absurd (ground arith)
found_partial (done no_name) name h = absurd (ground arith)
found_partial (done need_more) name h = absurd (ground arith)

read_body-append :
    (body m name : Bytes) (hs_len : ℕ)
    → read_body body hs_len ≡ done (found name)
    → read_body (body ++ m) hs_len ≡ done (found name)
unfolding read_body
read_body-append body m name hs_len h = ground (
  arith,
  length-append body m,
  take-append (hs_len - 0) body m,
  found_partial (parse_client_hello body false) name,
  parse_client_hello-append body m name false false,
  take_past (hs_len - 0) body m,
  parse_client_hello-append body (take (hs_len - 0 - length body) m) name false true,
)

-- Once a name is found in the first bytes of a connection, more bytes change nothing: the same name
-- is found in every longer text, whether the message was whole or not when it was found.
pub client_hello_sni-append :
    (payload more name : Bytes)
    → client_hello_sni payload ≡ done (found name)
    → client_hello_sni (payload ++ more) ≡ done (found name)
unfolding client_hello_sni
client_hello_sni-append payload more name h =
    let hs_len =
      get_or payload 6 0 * 65536 + (get_or payload 7 0 * 256 + get_or payload (7 + 1) 0) in
    ground (
      arith,
      length-append payload more,
      get_or-append payload more 0,
      get_or-append payload more 1,
      get_or-append payload more 3,
      get_or-append payload more (3 + 1),
      get_or-append payload more 5,
      get_or-append payload more 6,
      get_or-append payload more 7,
      get_or-append payload more (7 + 1),
      drop-append 9 payload more,
      read_body-append (drop 9 payload) more name hs_len,
    )
