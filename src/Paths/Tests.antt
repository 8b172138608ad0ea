-- ===== src/Paths/Tests.antt =====
-- Runs of the functions on paths.
use torbox_fuse_go.Base.{◌≡◌, refl, str, Str-discrete, ◌∷◌, []}
use torbox_fuse_go.Paths.{
  upto_slash, join_slash, last_segment, strip_slashes, resolve_all, segments, clean, dir, base,
  join,
}

clean_runs :
    (clean (str "/a//b/./../c/") ≡ str "/a/c")
    × (clean (str "/../x") ≡ str "/x")
    × (clean (str "../a/../../b") ≡ str "../../b")
    × (clean (str "a/..") ≡ str ".")
unfolding clean segments resolve_all join_slash Str-discrete
clean_runs = (refl, refl, refl, refl)

dir_runs :
    (dir (str "/movies/Alien/a.mkv") ≡ str "/movies/Alien")
    × (dir (str "/movies") ≡ str "/")
    × (dir (str "/") ≡ str "/")
    × (dir (str "a") ≡ str ".")
unfolding dir clean segments resolve_all join_slash upto_slash Str-discrete
dir_runs = (refl, refl, refl, refl)

base_runs :
    (base (str "/movies/Alien/") ≡ str "Alien") × (base (str "//") ≡ str "/") × (base [] ≡ str ".")
unfolding base segments strip_slashes last_segment
base_runs = (refl, refl, refl)

join_runs : join (str "/movies" ∷ str "A/../B" ∷ []) ≡ str "/movies/B"
unfolding join clean segments resolve_all join_slash Str-discrete
join_runs = refl
