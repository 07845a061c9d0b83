-- ===== src/Sender/Stall.antt =====
-- What further repetitions of an acknowledgement do to the threshold.
