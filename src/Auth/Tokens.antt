-- ===== src/Auth/Tokens.antt =====
-- What a used-up e-mail token leaves behind.
