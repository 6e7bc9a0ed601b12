-- ===== src/Urls/Absolute.antt =====
-- The links that makeAbsoluteURL gives.
use monocle.Prelude.{true, ◌≡◌, if◌then◌else◌, Option, none, some, arith}
use monocle.Prelude.Maybe.{◌>>=◌}
use monocle.Prelude.Text.{Text, codes, eqb, eqb_iff}
use monocle.Prelude.Unicode.{Unicode, trim_space}
use monocle.Urls.{UrlLibrary, make_absolute_url}

eqb_sound : (s t : Text) → eqb s t ≡ true → s ≡ t
eqb_sound s t = (eqb_iff s t).0

module _ (U : Type 0) (urls : UrlLibrary U) where
  -- A text of a URL with the scheme https.
  abbrev pub IsHttps : Text → Type 0
  IsHttps link =
      (resolved : U) × (urls.scheme resolved ≡ codes "https") × (link ≡ urls.to_string resolved)

  resolved_lem :
      (resolved : U) (link : Text)
      → (if eqb (urls.scheme resolved) (codes "https")
          then some (urls.to_string resolved)
          else none)
        ≡ some link
      → IsHttps link
  resolved_lem resolved link h = (
    resolved,
    ground (arith, h, eqb_sound (urls.scheme resolved) (codes "https")),
    ground (arith, h),
  )

  parsed_lem :
      (base : U) (o : Option U) (link : Text)
      → (do
        parsed ← o
        let resolved = urls.without_fragment (urls.resolve_reference base parsed)
        if eqb (urls.scheme resolved) (codes "https") then some (urls.to_string resolved) else none)
        ≡ some link
      → IsHttps link
  parsed_lem base none link h = absurd (ground (arith, h))
  parsed_lem base (some parsed) link h =
      resolved_lem (urls.without_fragment (urls.resolve_reference base parsed)) link h

  pub make_absolute_url-IsHttps :
      (u : Unicode) (raw : Text) (base : U) (link : Text)
      → make_absolute_url U urls u raw base ≡ some link
      → IsHttps link
  unfolding make_absolute_url
  make_absolute_url-IsHttps u raw base link h =
      parsed_lem base (urls.parse (trim_space u raw)) link (ground (arith, h))
