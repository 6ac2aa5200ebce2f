-- ===== src/Intel/Tests.antt =====
-- A hosts file of two lines, one of several names.
use native.Mathlib.Decide.{ℕ_discrete}
use aegor_x.Prelude.{◌≡◌, refl, false, true, none, List, [], ◌∷◌, map, mem}
use aegor_x.Updates.Versions.{codes}
use aegor_x.Dns.Domain.{Text-discrete, lstrip, strip}
use aegor_x.Intel.Extract.{
  Reader, exceptions, extract_domains_from_hosts, extract_domains_from_text, lines_from, runs,
}
use aegor_x.Intel.Words.{print_all}
use aegor_x.Intel.Tokens.{FeedLine, name, excepted, comment, to_line}
use aegor_x.Intel.Spelled.{extract_domains_from_hosts-to_line}

abbrev feed : List FeedLine
feed =
    (codes "127.0.0.1", excepted (true ∷ []) (codes "localhost") ∷ [])
    ∷ (codes "0.0.0.0", name (true ∷ []) (codes "t.co") ∷ comment (codes "x") ∷ [])
    ∷ []

extract_domains_from_hosts-to_line_example :
    extract_domains_from_hosts (print_all (map to_line feed)) ≡ codes "t.co" ∷ []
unfolding exceptions mem Text-discrete ℕ_discrete
extract_domains_from_hosts-to_line_example = extract_domains_from_hosts-to_line feed refl

reads : print_all (map to_line feed) ≡ codes "127.0.0.1 Localhost\n0.0.0.0 T.co #x\n"
reads = refl

-- A comment behind a name is split into names as well.
inline_comment :
    extract_domains_from_hosts (codes "0.0.0.0 a.b # see") ≡ codes "a.b" ∷ codes "see" ∷ []
unfolding extract_domains_from_hosts exceptions lines_from runs strip lstrip mem Text-discrete
    ℕ_discrete
inline_comment = refl

abbrev reader : Reader
reader = record { is_ip = λ _. false; is_special = λ _. false; hostname = λ _. none }

one_a_line : extract_domains_from_text reader (codes "# x\na.B\r\n// y\nab") ≡ codes "a.b" ∷ []
unfolding extract_domains_from_text lines_from strip lstrip
one_a_line = refl
