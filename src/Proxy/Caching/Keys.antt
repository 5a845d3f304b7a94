-- ===== src/Proxy/Caching/Keys.antt =====
-- splitio/proxy/caching/caching.go: which requests share a cached response.
use mathlib.Core.List.{append_assoc, append-nil}
use split_synchronizer.Prelude.Str.{Str, str, str_eq}
use split_synchronizer.Prelude.{
  false, [], ◌++◌, Any, ◌⊎◌, ◌≡◌, refl, sym, ap, ◌∙◌, Bool-cases, inl, inr,
}
use split_synchronizer.Proxy.Caching.{
  Request, has_prefix, contains_str, encoding_prefix, is_auth, key_factory,
  make_my_segments_entries,
}

abbrev pub my_segments_path : Str → Str
my_segments_path key = str "/api/mySegments/" ++ key

my_segments-is_auth : (key : Str) (r : Request) → r.path ≡ my_segments_path key → is_auth r ≡ false
unfolding is_auth has_prefix
my_segments-is_auth key r e = rw e refl

encoding_cases : (r : Request) → (encoding_prefix r ≡ str "gzip::") ⊎ (encoding_prefix r ≡ [])
unfolding encoding_prefix
encoding_cases r = elim (Bool-cases (contains_str (str "gzip") r.accept_encoding)) [
  | inl t ↦ inl (rw t refl)
  | inr f ↦ inr (rw f refl)
]

key_factory-other :
    (r : Request) → is_auth r ≡ false → key_factory r ≡ encoding_prefix r ++ r.path ++ r.raw_query
unfolding key_factory
key_factory-other r e = rw e refl

-- A request for the segments of a key, with no query, is cached under one of the entries that are
-- evicted for the key.
pub key_factory-entries :
    (key : Str) (r : Request)
    → r.path ≡ my_segments_path key
    → r.raw_query ≡ []
    → Any (λ entry. key_factory r ≡ entry) (make_my_segments_entries key)
key_factory-entries key r p q =
    let base = key_factory-other r (my_segments-is_auth key r p) in
    elim (encoding_cases r) [
      | inl gzip ↦
          inr (inl (base ∙ rw (gzip, p, q) (append-nil (str "gzip::" ++ my_segments_path key))))
      | inr plain ↦ inl (base ∙ rw (plain, p, q) (append-nil (my_segments_path key)))
    ]

-- The query is put behind the path with nothing in between: a request for the segments of a key with
-- a query shares its cached response with one without a query for the key that the two make together.
pub key_factory-shared :
    (key : Str) (r : Request)
    → r.path ≡ my_segments_path key
    → key_factory r
      ≡ key_factory (record r { path = my_segments_path (key ++ r.raw_query); raw_query = [] })
unfolding encoding_prefix
key_factory-shared key r p =
    key_factory-other r (my_segments-is_auth key r p)
    ∙ ap (λ t. encoding_prefix r ++ t ++ r.raw_query) p
    ∙ append_assoc (encoding_prefix r) (my_segments_path key) r.raw_query
    ∙ sym (append-nil (encoding_prefix r ++ my_segments_path (key ++ r.raw_query)))
    ∙ sym (
        key_factory-other
          (record r { path = my_segments_path (key ++ r.raw_query); raw_query = [] })
          (my_segments-is_auth (key ++ r.raw_query)
            (record r { path = my_segments_path (key ++ r.raw_query); raw_query = [] }) refl))
