-- ===== src/Paths/Joined.antt =====
-- path.Join of elements of which the first is a path from the root.
use torbox_fuse_go.Base.{◌++◌, sym, true, reverse, subst, refl, List, [], ◌∷◌, Str}
use torbox_fuse_go.Paths.{slash, segments, resolve_all, join_slash, clean, nonempty, join, Rooted}

clean-Rooted : (cs : Str) → Rooted (clean (slash ∷ cs))
unfolding clean
clean-Rooted cs = (join_slash (reverse (resolve_all true [] (segments cs))), refl)

join_slash-Rooted : (cs : Str) (ss : List Str) → Rooted (join_slash ((slash ∷ cs) ∷ ss))
unfolding join_slash
join_slash-Rooted cs [] = (cs, refl)
join_slash-Rooted cs (t ∷ ss) = (cs ++ (slash ∷ join_slash (t ∷ ss)), refl)

pub join-Rooted : (cs : Str) (ss : List Str) → Rooted (join ((slash ∷ cs) ∷ ss))
unfolding join
join-Rooted cs ss =
    let (rest, e) = join_slash-Rooted cs (nonempty ss) in
    subst (λ p. Rooted (clean p)) (sym e) (clean-Rooted rest)
