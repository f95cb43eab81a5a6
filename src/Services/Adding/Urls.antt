-- ===== src/Services/Adding/Urls.antt =====
-- internal/services/feed_service.go: the URLs that an import takes from its document.
use goread.Base.{
  string_Eq, ℕ, suc, ◌≡◌, refl, Bool, false, not, ◌&&◌, ◌||◌, String, List, [], ◌∷◌, ◌++◌,
  if◌then◌else◌, arith, eq_iff, Bool-cases, inl, inr, ◌==◌,
}
use goread.Database.Articles.{contains}
use goread.Services.Adding.{
  deduplicate, deduplicate_feed_urls, Outlines, no_outlines, outline, extract_feeds,
}

-- How often a URL stands in a list.
abbrev pub occurrences : String → List String → ℕ
occurrences u [] = 0
occurrences u (v ∷ l) = let rest = occurrences u l in if v == u then suc rest else rest

occurrences-deduplicate :
    (u : String) (seen urls : List String)
    → occurrences u (deduplicate seen urls)
      ≡ (if contains u urls && (not (u == "") && not (contains u seen)) then 1 else 0)
unfolding deduplicate
occurrences-deduplicate u seen [] = refl
occurrences-deduplicate u seen (v ∷ urls) =
    elim (Bool-cases (not (v == "") && not (contains v seen))) [
      | inl new ↦
          rw (new, deduplicate)
            (ground (arith, eq_iff v u, eq_iff u v, occurrences-deduplicate u (v ∷ seen) urls))
      | inr old ↦
          rw (old, deduplicate) (ground (arith, eq_iff v u, occurrences-deduplicate u seen urls))
    ]

-- The URL of an outline of the document, nested or not.
abbrev pub mentions : String → Outlines → Bool
mentions u no_outlines = false
mentions u (outline url nested others) = url == u || (mentions u nested || mentions u others)

contains-append :
    (u : String) (l k : List String) → contains u (l ++ k) ≡ (contains u l || contains u k)
contains-append u [] k = refl
contains-append u (v ∷ l) k = ground (arith, contains-append u l k)

contains-extract_feeds :
    (u : String) (o : Outlines) → (u == "") ≡ false → contains u (extract_feeds o) ≡ mentions u o
unfolding extract_feeds
contains-extract_feeds u no_outlines h = refl
contains-extract_feeds u (outline url nested others) h = ground (
  arith,
  eq_iff url u,
  eq_iff u "",
  eq_iff url "",
  contains-append u (extract_feeds nested) (extract_feeds others),
  contains-extract_feeds u nested h,
  contains-extract_feeds u others h,
)

-- Among the URLs that an import works through, each URL of the document's outlines, at any depth of
-- nesting, stands exactly once, and no other URL and no empty one stands there.
pub occurrences-deduplicate_feed_urls :
    (u : String) (o : Outlines)
    → occurrences u (deduplicate_feed_urls (extract_feeds o))
      ≡ (if mentions u o && not (u == "") then 1 else 0)
unfolding deduplicate_feed_urls
occurrences-deduplicate_feed_urls u o = elim (Bool-cases (u == "")) [
  | inl empty ↦ ground (arith, occurrences-deduplicate u [] (extract_feeds o))
  | inr named ↦
      ground
        (arith, occurrences-deduplicate u [] (extract_feeds o), contains-extract_feeds u o named)
]
