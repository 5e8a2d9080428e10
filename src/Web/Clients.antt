-- ===== src/Web/Clients.antt =====
-- serve.go, build.go: the patterns of clients for which no build is started.
use gobuild.Common.{
  ◌+◌, leb, Bool, true, false, not, ◌&&◌, ◌||◌, if◌then◌else◌, Option, none, some, List, [], ◌∷◌,
  Bytes, eq_bytes,
}
use gobuild.Strings.{contains, has_suffix}

-- strings.ToLower of an ASCII text
unfoldable pub to_lower : Bytes → Bytes
to_lower [] = []
to_lower (c ∷ s) =
    let rest = to_lower s in if leb b'A' c && leb c b'Z' then (c + 32) ∷ rest else c ∷ rest

-- ClientPattern, with `nets` for its ipnets; a network is what net.IPNet.Contains says of an address.
pub record ClientPattern : Type 0 where
  pub hostname_suffix : Bytes
  pub user_agent : Bytes
  pub nets : List (Bytes → Bool)

-- The fields of the configuration
pub record ClientConfig : Type 0 where
  pub suffix_text : Bytes
  pub agent_text : Bytes
  pub networks : List Bytes

abbrev put_net : (Bytes → Bool) → Option (List (Bytes → Bool)) → Option (List (Bytes → Bool))
put_net n none = none
put_net n (some ns) = some (n ∷ ns)

-- The loop over the networks; `parse_cidr` is net.ParseCIDR.
unfoldable pub parse_networks :
    (Bytes → Option (Bytes → Bool)) → List Bytes → Option (List (Bytes → Bool))
parse_networks parse_cidr [] = some []
parse_networks parse_cidr (t ∷ ts) =
    let rest = parse_networks parse_cidr ts in
    elim (parse_cidr t) [ none ↦ none | some n ↦ put_net n rest ]

abbrev pattern_of : ClientConfig → Option (List (Bytes → Bool)) → Option ClientPattern
pattern_of c none = none
pattern_of c (some ns) = some (record {
  hostname_suffix = to_lower c.suffix_text;
  user_agent = to_lower c.agent_text;
  nets = ns;
})

-- A pattern of the configuration, in parseConfig
unfoldable pub parse_pattern : (Bytes → Option (Bytes → Bool)) → ClientConfig → Option ClientPattern
parse_pattern parse_cidr c = pattern_of c (parse_networks parse_cidr c.networks)

-- The client: its user agent, its address without the port, and the names of the address.
pub record Client : Type 0 where
  pub agent : Bytes
  pub address : Option Bytes
  pub hosts : Option (List Bytes)

unfoldable pub in_networks : Bytes → List (Bytes → Bool) → Bool
in_networks ip [] = false
in_networks ip (n ∷ ns) = n ip || in_networks ip ns

unfoldable pub has_host : Bytes → List Bytes → Bool
unfolding to_lower
has_host suffix [] = false
has_host suffix (h ∷ hs) = has_suffix suffix (to_lower h) || has_host suffix hs

abbrev is_empty_list : List (Bytes → Bool) → Bool
is_empty_list [] = true
is_empty_list (n ∷ ns) = false

unfoldable pub match_hosts : Bytes → Option (List Bytes) → Bool
unfolding eq_bytes
match_hosts suffix hosts =
    if eq_bytes suffix [] then true else elim hosts [ none ↦ false | some hs ↦ has_host suffix hs ]

abbrev pub match_address : ClientPattern → Client → Option Bytes → Bool
match_address p c none = false
match_address p c (some ip) =
    if not (is_empty_list p.nets) && not (in_networks ip p.nets)
    then false
    else match_hosts p.hostname_suffix c.hosts

-- ClientPattern.Match
unfoldable pub matches : ClientPattern → Client → Bool
unfolding eq_bytes
matches p c =
    if not (eq_bytes p.user_agent []) && not (contains p.user_agent (to_lower c.agent))
    then false
    else if is_empty_list p.nets && eq_bytes p.hostname_suffix []
    then false
    else match_address p c c.address

-- handleBadClient
unfoldable pub is_bad : List ClientPattern → Client → Bool
is_bad [] c = false
is_bad (p ∷ ps) c = matches p c || is_bad ps c
