-- ===== src/Epoll/Kernel.antt =====
-- An instance of the interface to epoll: a function from descriptors to entries.
use zeroserv.Prelude.{ℕ, refl, Option, none, ◌==◌, if◌then◌else◌}
use zeroserv.Epoll.Interface.{Epoll, after}

abbrev pub kernel : Epoll
kernel = record {
  State = ℕ → Option ℕ;
  interest = λ fd s. s fd;
  ctl = λ op fd events s g. if fd == g then after op events (s g) else s g;
  close = λ fd s g. if fd == g then none else s g;
  interest-ctl = λ op fd events g s. refl;
  interest-close = λ fd g s. refl;
}
