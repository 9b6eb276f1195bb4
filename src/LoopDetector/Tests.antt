-- ===== src/LoopDetector/Tests.antt =====
-- Runs of kazenai/loop_detector.py.
use kazenai_core.Base.{refl, arith}
use kazenai_core.LoopDetector.Window.{IsCounted}
use kazenai_core.LoopDetector.{new_history}

new-IsCounted : IsCounted 2 new_history
new-IsCounted = record { counts = λ fp. refl; bounded = omega arith }
