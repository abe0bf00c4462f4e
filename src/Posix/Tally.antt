-- ===== src/Posix/Tally.antt =====
-- The resources that a trace of calls acquires and gives up.
use interprocess_comm.Prelude.{ℕ, ◌+◌, ◌≤◌, ◌≡◌, refl, ap, sym, ◌∙◌, List, [], ◌∷◌, ◌++◌, arith}
use interprocess_comm.Posix.{
  Action, create_file, unlink_file, open_fd, close_fd, map_file, unmap_file, allocate, release,
}

-- How often each thing has been acquired and given up.
pub record Tally : Type 0 where
  pub created : ℕ
  pub unlinked : ℕ
  pub fds : ℕ
  pub closed : ℕ
  pub maps : ℕ
  pub unmapped : ℕ
  pub allocated : ℕ
  pub released : ℕ

abbrev nothing : Tally
nothing = record {
  created = 0;
  unlinked = 0;
  fds = 0;
  closed = 0;
  maps = 0;
  unmapped = 0;
  allocated = 0;
  released = 0;
}

abbrev count_one : Action → Tally → Tally
count_one create_file t = record t { created = t.created + 1 }
count_one unlink_file t = record t { unlinked = t.unlinked + 1 }
count_one open_fd t = record t { fds = t.fds + 1 }
count_one close_fd t = record t { closed = t.closed + 1 }
count_one (map_file _) t = record t { maps = t.maps + 1 }
count_one (unmap_file _) t = record t { unmapped = t.unmapped + 1 }
count_one allocate t = record t { allocated = t.allocated + 1 }
count_one release t = record t { released = t.released + 1 }

abbrev pub tally_from : Tally → List Action → Tally
tally_from t [] = t
tally_from t (a ∷ as') = tally_from (count_one a t) as'

abbrev pub tally : List Action → Tally
tally = tally_from nothing

-- Every file made is unlinked, every mapping and allocation undone, every descriptor closed (some
-- perhaps twice).
pub record Undone (t : Tally) : Type 0 where
  pub files : t.created ≡ t.unlinked
  pub mappings : t.maps ≡ t.unmapped
  pub handles : t.allocated ≡ t.released
  pub descriptors : t.fds ≤ t.closed

-- One mapping and one handle are kept, and no descriptor.
pub record Kept (t : Tally) : Type 0 where
  pub files : t.unlinked ≡ 0
  pub mappings : t.maps ≡ t.unmapped + 1
  pub handles : t.allocated ≡ t.released + 1
  pub descriptors : t.fds ≡ t.closed

-- Nothing is kept, and each descriptor is closed once.
pub record Idle (t : Tally) : Type 0 where
  pub files : (t.created ≡ 0) × (t.unlinked ≡ 0)
  pub mappings : t.maps ≡ t.unmapped
  pub handles : t.allocated ≡ t.released
  pub descriptors : t.fds ≡ t.closed

abbrev pub plus : Tally → Tally → Tally
plus s t = record {
  created = s.created + t.created;
  unlinked = s.unlinked + t.unlinked;
  fds = s.fds + t.fds;
  closed = s.closed + t.closed;
  maps = s.maps + t.maps;
  unmapped = s.unmapped + t.unmapped;
  allocated = s.allocated + t.allocated;
  released = s.released + t.released;
}

plus-count_one : (a : Action) (s t : Tally) → plus s (count_one a t) ≡ count_one a (plus s t)
plus-count_one create_file s t = ground arith
plus-count_one _ s t = ground arith

tally_from-plus :
    (as' : List Action) (s t : Tally) → tally_from (plus s t) as' ≡ plus s (tally_from t as')
tally_from-plus [] s t = refl
tally_from-plus (a ∷ as') s t =
    ap (λ u. tally_from u as') (sym (plus-count_one a s t)) ∙ tally_from-plus as' s (count_one a t)

tally_from-append :
    (as' bs : List Action) (t : Tally) → tally_from t (as' ++ bs) ≡ tally_from (tally_from t as') bs
tally_from-append [] bs t = refl
tally_from-append (a ∷ as') bs t = tally_from-append as' bs (count_one a t)

pub tally-append : (as' bs : List Action) → tally (as' ++ bs) ≡ plus (tally as') (tally bs)
tally-append as' bs =
    tally_from-append as' bs nothing
    ∙ ap (λ u. tally_from u bs) (ground arith)
    ∙ tally_from-plus bs (tally as') nothing
