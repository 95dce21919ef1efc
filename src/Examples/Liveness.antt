-- ===== src/Examples/Liveness.antt =====
-- An environment that meets the hypotheses of a run that returns, and such a run.
use cicd_demo.Base.{some, [], ◌∷◌, ◌≡◌, refl, false, inl, inr, arith}
use cicd_demo.Platform.{Comparison, World, ok, call, query}
use cicd_demo.Helper.{compare_decimal128, sub_decimal128, decimal128_to_int64}
use cicd_demo.Dao.Orders.{get_order_with_items_by_id}
use cicd_demo.Logic.Recalculate.{recalculate_order_status}
use cicd_demo.Logic.Recalculate.Steps.{IsComputed}
use cicd_demo.Logic.Recalculate.Liveness.{recalculate_order_status-Returns}
use cicd_demo.Examples.Data.{
  server, server-IsDocumented, env, buyer, order_in, item_in, world, tickets_publisher, amount,
}

env-IsComputed : IsComputed env (order_in "paid")
unfolding compare_decimal128 sub_decimal128 decimal128_to_int64
env-IsComputed = record {
  total_paid = (Comparison.equal, refl);
  returned_paid = (Comparison.less, refl);
  overpaid = (amount 0, refl);
  net_paid = amount 10;
  net = refl;
  net_total = (Comparison.equal, refl);
  whole_paid = ((false, 10), refl);
}

abbrev paid_world : World
paid_world = world "paid" "delivered" "payment" "paid"

recalculate_order_status-Returns_example :
    (recalculate_order_status ⦃m = server⦄ ⦃e = env⦄ 1
      (some buyer)
      (some tickets_publisher)
      paid_world).0
    ≡ ok tt
unfolding get_order_with_items_by_id query call
recalculate_order_status-Returns_example =
    recalculate_order_status-Returns ⦃m = server⦄ ⦃e = env⦄ server-IsDocumented (λ n. refl) 1 buyer
      tickets_publisher paid_world
      (record { order = order_in "paid"; items = item_in "delivered" ∷ [] }) refl
      (inr (inr (inr (inl refl)))) env-IsComputed (omega arith)
