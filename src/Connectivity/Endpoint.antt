-- ===== src/Connectivity/Endpoint.antt =====
-- The texts policy.py and model.py read: identifiers, addresses, host names, endpoints, networks. Every text is
-- ASCII where the source asks for it.
use peer_application_runtime.Base.{
  ℕ, ◌+◌, List, [], ◌∷◌, ◌++◌, Bool, true, false, not, ◌&&◌, ◌||◌, Option, none, some, leb, ◌==◌,
  if◌then◌else◌, length, drop, map,
}
use peer_application_runtime.Base.Text.{Str, codes, starts_with}
use peer_application_runtime.Base.Fallible.{done, failed, demand, ◌>>=◌, ◌>>◌}
use peer_application_runtime.Connectivity.Ip.{
  Ip, Network, ip_address, unmapped, ip_network, write_ip,
}
use peer_application_runtime.Connectivity.Ip.Text.{
  split, has_char, every, some_char, between, is_digit, is_lower, is_upper, is_hex_digit, is_digits,
  read_decimal,
}
use peer_application_runtime.Connectivity.Model.{
  Outcome, Endpoint, invalid_address, invalid_endpoint, invalid_network,
}

-- `[A-Za-z0-9_.:-]`.
abbrev is_id_char : ℕ → Bool
is_id_char c = is_digit c || is_lower c || is_upper c || c == 95 || c == 46 || c == 58 || c == 45

unfoldable pub identifier : Str → Bool
unfolding every
identifier s = leb 1 (length s) && leb (length s) 128 && every is_id_char s

abbrev pub is_ascii : ℕ → Bool
is_ascii c = leb c 127

unfoldable pub numeric_ip : Str → Outcome Ip
numeric_ip text = do
  demand (leb 1 (length text) && leb (length text) 45 && not (has_char 37 text)) invalid_address
  elim (ip_address text) [ none ↦ failed invalid_address | some ip ↦ done (unmapped ip) ]

abbrev lower : Str → Str
lower = map (λ c. if is_upper c then c + 32 else c)

-- `0x[0-9a-f]+|[0-9]+`, in a name in lower case.
unfoldable pub is_legacy_number : Str → Bool
unfolding is_digits every starts_with
is_legacy_number s =
    is_digits s
    || (starts_with (codes "0x") s
        && leb 3 (length s)
        && every (λ c. is_digit c || between 97 102 c) (drop 2 s))

abbrev every_label : (Str → Bool) → List Str → Bool
every_label test [] = true
every_label test (l ∷ ls) = test l && every_label test ls

abbrev is_alnum : ℕ → Bool
is_alnum c = is_digit c || is_lower c

abbrev ends_alnum : Str → Bool
ends_alnum [] = false
ends_alnum (c ∷ []) = is_alnum c
ends_alnum (c ∷ d ∷ s) = ends_alnum (d ∷ s)

abbrev starts_alnum : Str → Bool
starts_alnum [] = false
starts_alnum (c ∷ s) = is_alnum c

-- `LABEL`.
unfoldable pub is_label : Str → Bool
unfolding every
is_label s =
    leb (length s) 63 && starts_alnum s && ends_alnum s && every (λ c. is_alnum c || c == 45) s

abbrev last_label : List Str → Str
last_label [] = []
last_label (l ∷ []) = l
last_label (l ∷ m ∷ ls) = last_label (m ∷ ls)

unfoldable pub dns_name : Str → Outcome Str
unfolding every some_char is_legacy_number is_label split
dns_name text =
    let name = lower text in
    let labels = split 46 name in
    do
      demand (every is_ascii text && leb (length text) 253) invalid_endpoint
      demand (not (leb (length labels) 4 && every_label is_legacy_number labels)) invalid_endpoint
      demand
          (leb 2 (length labels)
            && some_char is_lower (last_label labels)
            && every_label is_label labels)
          invalid_endpoint
      done name

-- A text split at its scheme, one of `tcp`, `quic` and `wss`, and `://`.
abbrev read_scheme : Str → List Str → Option (Str × Str)
read_scheme text [] = none
read_scheme text (s ∷ ss) =
    if starts_with (s ++ codes "://") text
    then some (s, drop (length s + 3) text)
    else read_scheme text ss

-- A text split at its last colon.
abbrev last_colon : List Str → Option (Str × Str)
last_colon [] = none
last_colon (p ∷ []) = none
last_colon (p ∷ q ∷ []) = some (p, q)
last_colon (p ∷ q ∷ r ∷ ps) = elim (last_colon (q ∷ r ∷ ps)) [
  | none ↦ none
  | some (front, back) ↦ some (p ++ 58 ∷ front, back)
]

-- `[1-9][0-9]{0,4}`, at most 65535.
abbrev read_port : Str → Option ℕ
read_port s =
    if is_digits s && leb (length s) 5 && not (starts_with (48 ∷ []) s)
    then elim (read_decimal s) [ none ↦ none | some n ↦ if leb n 65535 then some n else none ]
    else none

-- `\[[0-9a-fA-F:.]+\]`, without the brackets; the other form is in `[A-Za-z0-9.-]+`.
abbrev strip_bracket : Str → Option Str
strip_bracket [] = none
strip_bracket (c ∷ []) = if c == 93 then some [] else none
strip_bracket (c ∷ d ∷ s) = elim (strip_bracket (d ∷ s)) [
  | none ↦ none
  | some front ↦ if is_hex_digit c || c == 58 || c == 46 then some (c ∷ front) else none
]

abbrev is_name_char : ℕ → Bool
is_name_char c = is_digit c || is_lower c || is_upper c || c == 46 || c == 45

unfoldable pub host_literal : Str → Outcome (Str × Option Str)
unfolding numeric_ip
host_literal host = elim (numeric_ip host) [
  | done ip ↦ done (write_ip ip, some (write_ip ip))
  | failed e ↦ dns_name host >>= λ name. done (name, none)
]

unfoldable pub bracketed_literal : Str → Outcome (Str × Option Str)
unfolding numeric_ip
bracketed_literal host = elim (numeric_ip host) [
  | done ip ↦
      if has_char 58 host then done (write_ip ip, some (write_ip ip)) else failed invalid_endpoint
  | failed e ↦ failed invalid_endpoint
]

unfoldable pub read_host : Str → Outcome (Str × Option Str)
unfolding every host_literal bracketed_literal
read_host [] = failed invalid_endpoint
read_host (c ∷ s) =
    if c == 91
    then elim (strip_bracket s) [
      | none ↦ failed invalid_endpoint
      | some host ↦ demand (leb 1 (length host)) invalid_endpoint >> bracketed_literal host
    ]
    else demand (every is_name_char (c ∷ s)) invalid_endpoint >> host_literal (c ∷ s)

abbrev endpoint_of : Option (Str × Str) → Outcome Endpoint
endpoint_of none = failed invalid_endpoint
endpoint_of (some (scheme, rest)) = elim (last_colon (split 58 rest)) [
  | none ↦ failed invalid_endpoint
  | some (raw, port_text) ↦ elim (read_port port_text) [
    | none ↦ failed invalid_endpoint
    | some port ↦ read_host raw >>= λ r.
        done (record { scheme = scheme; host = r.0; port = port; literal = r.1 })
  ]
]

unfoldable pub parse_endpoint : Str → Outcome Endpoint
unfolding every starts_with read_host split is_digits read_decimal
parse_endpoint text = do
  demand (every is_ascii text && leb (length text) 320) invalid_endpoint
  endpoint_of (read_scheme text (codes "tcp" ∷ codes "quic" ∷ codes "wss" ∷ []))

unfoldable pub parse_network : Str → Outcome Network
parse_network text = do
  demand (leb (length text) 49 && not (has_char 37 text) && has_char 47 text) invalid_network
  elim (ip_network text) [ none ↦ failed invalid_network | some n ↦ done n ]
