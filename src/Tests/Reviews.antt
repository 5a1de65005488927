-- ===== src/Tests/Reviews.antt =====
-- The theorem on ratings, used on a purchase of user 2 from user 1.
use vintage.Prelude.{◌≡◌, refl, none, some, [], ◌∷◌, ◌==◌, arith, Bool-cases, inl, inr}
use vintage.Prelude.Dict.{lookup}
use vintage.World.{World, OrderStatus}
use vintage.World.Action.{err, Exception, actions, throw, pure}
use vintage.World.Tables.{find_unique, update, create}
use vintage.Reviews.{create_review, store_review, create_row, reply_to_review}
use vintage.Reviews.Ratings.{Rated, create_review-Rated}
use vintage.Tests.{a_world}
use vintage.Tests.Sessions.{a_user}

abbrev bought : World
bought = record (a_world OrderStatus.completed) { users = (1, a_user) ∷ [] }

abbrev reviewed : World
reviewed = (create_review (λ u. u) (λ u. u) 2 5 4 none [] bought).1

-- User 1 has one review of four stars, and answers it.
reviewed_seller :
    lookup 1 reviewed.users ≡ some (record a_user { rating_sum = 4; rating_count = 1 })
unfolding create_review store_review create_row find_unique update create actions throw pure
reviewed_seller = refl

reviewed_twice :
    (create_review (λ u. u) (λ u. u) 2 5 5 none [] reviewed).0 ≡ err Exception.bad_request
unfolding create_review store_review create_row find_unique update create actions throw pure
reviewed_twice = refl

bought-Rated : Rated bought
bought-Rated = (
  λ k g. refl,
  λ u. (omega arith, omega arith),
  λ u. elim (Bool-cases (1 == u)) [ inl e ↦ rw e (refl, refl) | inr e ↦ rw e tt ],
)

create_review-Rated_example :
    Rated (create_review (λ u. u) (λ u. u) 2 5 4 none [] bought).1
    × Rated (reply_to_review (λ u. u) 100 1 (79 ∷ []) bought).1
create_review-Rated_example =
    create_review-Rated (λ u. u) (λ w h. h) 2 5 4 100 1 none [] (79 ∷ []) bought bought-Rated
