-- ===== src/Web/Static.antt =====
-- StaticServer of internal/api/static.go. The file server behind it is a parameter: what matters is
-- the path that it is asked for.
use contest_sync.Common.{
  ◌≡◌, refl, Bool, true, false, ◌⊎◌, inl, inr, [], ◌∷◌, ◌++◌, Bytes, codes, contains, is_empty,
  ◌==◌, if◌then◌else◌, if_split,
}

-- strings.TrimPrefix(path, "/")
unfoldable pub trim_slash : Bytes → Bytes
trim_slash [] = []
trim_slash (c ∷ path) = if c == b'/' then path else c ∷ path

module _ (opens : Bytes → Bool) where
  -- behind the test for a file: a page without its ending
  unfoldable pub page_path : Bytes → Bytes → Bytes
  page_path url_path path =
      if contains path (codes ".")
      then url_path
      else if opens (path ++ codes ".html")
      then b'/' ∷ (path ++ codes ".html")
      else url_path

  -- ServeHTTP: the path for the file server; `opens` tells whether s.fs.Open gives no error
  unfoldable pub served_path : Bytes → Bytes
  unfolding page_path trim_slash
  served_path url_path =
      if is_empty (trim_slash url_path)
      then url_path
      else if opens (trim_slash url_path)
      then url_path
      else page_path url_path (trim_slash url_path)

  -- The server changes a path only to a page that exists, where there is no file of the path itself.
  pub served_path_lem :
      (url_path : Bytes)
      → (served_path url_path ≡ url_path)
        ⊎ ((served_path url_path ≡ b'/' ∷ (trim_slash url_path ++ codes ".html"))
            × (opens (trim_slash url_path ++ codes ".html") ≡ true)
            × (opens (trim_slash url_path) ≡ false))
  unfolding served_path page_path
  served_path_lem url_path =
      let P = λ (s : Bytes).
        (s ≡ url_path)
        ⊎ ((s ≡ b'/' ∷ (trim_slash url_path ++ codes ".html"))
            × (opens (trim_slash url_path ++ codes ".html") ≡ true)
            × (opens (trim_slash url_path) ≡ false)) in
      if_split P (is_empty (trim_slash url_path)) (λ _. inl refl)
        λ _.
          if_split P (opens (trim_slash url_path)) (λ _. inl refl)
            λ missing.
              if_split P (contains (trim_slash url_path) (codes ".")) (λ _. inl refl)
                λ _.
                  if_split P (opens (trim_slash url_path ++ codes ".html"))
                    (λ found. inr (refl, found, missing)) (λ _. inl refl)
