-- ===== src/CliTelnet/Listed.antt =====
-- The list of the connections by their descriptors.
use kongjaexpress.Prelude.{ℕ, ◌≡◌, ◌≢◌, refl, arith, List, [], ◌∷◌, ◌++◌, none, some}
use kongjaexpress.CliTelnet.{CliConnection}
use kongjaexpress.CliTelnet.Server.{conn_of, put_conn, unlink_conn}

module _ {Loop : Type 0} where
  pub conn_of-put_same :
      (sd : ℕ) (c c' : CliConnection Loop) (xs : List (ℕ × CliConnection Loop))
      → conn_of sd xs ≡ some c
      → conn_of sd (put_conn sd c' xs) ≡ some c'
  unfolding conn_of put_conn
  conn_of-put_same sd c c' [] h = absurd (ground arith)
  conn_of-put_same sd c c' ((at, x) ∷ xs) h = ground (arith, conn_of-put_same sd c c' xs)

  pub conn_of-put_other :
      (sd on : ℕ) (c' : CliConnection Loop) (xs : List (ℕ × CliConnection Loop))
      → on ≢ sd
      → conn_of sd (put_conn on c' xs) ≡ conn_of sd xs
  unfolding conn_of put_conn
  conn_of-put_other sd on c' [] h = refl
  conn_of-put_other sd on c' ((at, x) ∷ xs) h = ground (arith, conn_of-put_other sd on c' xs)

  pub conn_of-unlink_conn :
      (sd on : ℕ) (xs : List (ℕ × CliConnection Loop))
      → on ≢ sd
      → conn_of sd (unlink_conn on xs) ≡ conn_of sd xs
  unfolding conn_of unlink_conn
  conn_of-unlink_conn sd on [] h = refl
  conn_of-unlink_conn sd on ((at, x) ∷ xs) h = ground (arith, conn_of-unlink_conn sd on xs)

  pub conn_of-append :
      (sd : ℕ) (xs ys : List (ℕ × CliConnection Loop)) (c : CliConnection Loop)
      → conn_of sd xs ≡ some c
      → conn_of sd (xs ++ ys) ≡ some c
  unfolding conn_of
  conn_of-append sd [] ys c h = absurd (ground arith)
  conn_of-append sd ((at, x) ∷ xs) ys c h = ground (arith, conn_of-append sd xs ys c)

  pub conn_of-append_new :
      (sd : ℕ) (xs : List (ℕ × CliConnection Loop)) (c : CliConnection Loop)
      → conn_of sd xs ≡ none
      → conn_of sd (xs ++ (sd, c) ∷ []) ≡ some c
  unfolding conn_of
  conn_of-append_new sd [] c h = ground arith
  conn_of-append_new sd ((at, x) ∷ xs) c h = ground (arith, conn_of-append_new sd xs c)
