-- ===== src/Encrypted/Stash.antt =====
-- The plain servers that are put aside when encrypted DNS is switched on.
use srouter.Base.{
  false, List, [], ◌∷◌, ◌≡◌, ◌≢◌, refl, ap, ◌∙◌, arith, Text, codes, text_eq, collect, map, All,
  Lacks,
}
use srouter.Strings.{trim_space, split, join}
use srouter.Strings.Split.{split_at_sep, split_whole}
use srouter.Dns.{UpstreamServer}
use srouter.Encrypted.{
  plain, stash_upstreams, joined_or, restored_part, or_public, restore_upstreams,
}

-- An address that a comma-separated list can hold.
abbrev pub IsListable : UpstreamServer → Type 0
IsListable u = Lacks b',' u.address × (text_eq (trim_space u.address) [] ≡ false)

-- the server as it is restored
abbrev pub tidied : UpstreamServer → UpstreamServer
tidied u = record { address = trim_space u.address }

abbrev address_of : UpstreamServer → Text
address_of u = u.address

split-join :
    (u : UpstreamServer) (us : List UpstreamServer)
    → All IsListable (u ∷ us)
    → split b',' (join (codes ",") (u.address ∷ map address_of us)) ≡ u.address ∷ map address_of us
unfolding join
split-join u [] (h, _) = split_whole b',' u.address h.0
split-join u (v ∷ us) (h, hs) =
    split_at_sep b',' u.address (join (codes ",") (v.address ∷ map address_of us)) h.0
    ∙ ap (λ ls. u.address ∷ ls) (split-join v us hs)

collect-restored_part :
    (us : List UpstreamServer)
    → All IsListable us
    → collect restored_part (map address_of us) ≡ map tidied us
unfolding collect restored_part
collect-restored_part [] _ = refl
collect-restored_part (u ∷ us) (h, hs) = ground (arith, h.1, collect-restored_part us hs)

-- What was stashed is what is restored, in its order: the servers that are not the two proxies, with
-- white space around their addresses cut off. There must be one, none may hold a comma, and none may
-- be blank.
pub restore_upstreams-stash_upstreams :
    (current : List UpstreamServer) (previous : Text)
    → plain current ≢ []
    → All IsListable (plain current)
    → restore_upstreams (stash_upstreams current previous) ≡ map tidied (plain current)
unfolding stash_upstreams restore_upstreams
restore_upstreams-stash_upstreams current previous some_plain h =
    restored (plain current) some_plain h
  where
    restored :
        (us : List UpstreamServer)
        → us ≢ []
        → All IsListable us
        → or_public (collect restored_part (split b',' (joined_or previous (map address_of us))))
          ≡ map tidied us
    restored [] ne _ = absurd (ne refl)
    restored (u ∷ us) ne h =
        unfold joined_or or_public in rw (split-join u us h, collect-restored_part (u ∷ us) h)
