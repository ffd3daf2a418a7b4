-- ===== src/Names/T83x.antt =====
-- hwc_names.hpp: the counter names of the T83x GPUs, 64 for each of the four blocks in the order of
-- their memory layout. An empty name is a hole in the block.
use hwcpipe.Common.{String, List, [], ◌∷◌, ◌++◌}

abbrev pub job_manager : List String
job_manager =
    "" ∷ "" ∷ "" ∷ "" ∷ "T83x_MESSAGES_SENT" ∷ "T83x_MESSAGES_RECEIVED" ∷ "T83x_GPU_ACTIVE"
    ∷ "T83x_IRQ_ACTIVE" ∷ "T83x_JS0_JOBS" ∷ "T83x_JS0_TASKS" ∷ "T83x_JS0_ACTIVE" ∷ ""
    ∷ "T83x_JS0_WAIT_READ" ∷ "T83x_JS0_WAIT_ISSUE" ∷ "T83x_JS0_WAIT_DEPEND" ∷ "T83x_JS0_WAIT_FINISH"
    ∷ "T83x_JS1_JOBS" ∷ "T83x_JS1_TASKS" ∷ "T83x_JS1_ACTIVE" ∷ "" ∷ "T83x_JS1_WAIT_READ"
    ∷ "T83x_JS1_WAIT_ISSUE" ∷ "T83x_JS1_WAIT_DEPEND" ∷ "T83x_JS1_WAIT_FINISH" ∷ "T83x_JS2_JOBS"
    ∷ "T83x_JS2_TASKS" ∷ "T83x_JS2_ACTIVE" ∷ "" ∷ "T83x_JS2_WAIT_READ" ∷ "T83x_JS2_WAIT_ISSUE"
    ∷ "T83x_JS2_WAIT_DEPEND" ∷ "T83x_JS2_WAIT_FINISH" ∷ "" ∷ "" ∷ "" ∷ "" ∷ "" ∷ "" ∷ "" ∷ "" ∷ ""
    ∷ "" ∷ "" ∷ "" ∷ "" ∷ "" ∷ "" ∷ "" ∷ "" ∷ "" ∷ "" ∷ "" ∷ "" ∷ "" ∷ "" ∷ "" ∷ "" ∷ "" ∷ "" ∷ ""
    ∷ "" ∷ "" ∷ "" ∷ "" ∷ []

abbrev pub tiler : List String
tiler =
    "" ∷ "" ∷ "" ∷ "T83x_TI_JOBS_PROCESSED" ∷ "T83x_TI_TRIANGLES" ∷ "T83x_TI_QUADS"
    ∷ "T83x_TI_POLYGONS" ∷ "T83x_TI_POINTS" ∷ "T83x_TI_LINES" ∷ "T83x_TI_FRONT_FACING"
    ∷ "T83x_TI_BACK_FACING" ∷ "T83x_TI_PRIM_VISIBLE" ∷ "T83x_TI_PRIM_CULLED"
    ∷ "T83x_TI_PRIM_CLIPPED" ∷ "" ∷ "" ∷ "" ∷ "" ∷ "" ∷ "" ∷ "" ∷ "" ∷ "T83x_TI_ACTIVE" ∷ "" ∷ ""
    ∷ "" ∷ "" ∷ "" ∷ "" ∷ "" ∷ "" ∷ "" ∷ "" ∷ "" ∷ "" ∷ "" ∷ "" ∷ "" ∷ "" ∷ "" ∷ "" ∷ "" ∷ "" ∷ ""
    ∷ "" ∷ "" ∷ "" ∷ "" ∷ "" ∷ "" ∷ "" ∷ "" ∷ "" ∷ "" ∷ "" ∷ "" ∷ "" ∷ "" ∷ "" ∷ "" ∷ "" ∷ "" ∷ ""
    ∷ "" ∷ []

abbrev pub shader : List String
shader =
    "" ∷ "" ∷ "" ∷ "" ∷ "T83x_FRAG_ACTIVE" ∷ "T83x_FRAG_PRIMITIVES" ∷ "T83x_FRAG_PRIMITIVES_DROPPED"
    ∷ "T83x_FRAG_CYCLES_DESC" ∷ "T83x_FRAG_CYCLES_FPKQ_ACTIVE" ∷ "T83x_FRAG_CYCLES_VERT"
    ∷ "T83x_FRAG_CYCLES_TRISETUP" ∷ "T83x_FRAG_CYCLES_EZS_ACTIVE" ∷ "T83x_FRAG_THREADS"
    ∷ "T83x_FRAG_DUMMY_THREADS" ∷ "T83x_FRAG_QUADS_RAST" ∷ "T83x_FRAG_QUADS_EZS_TEST"
    ∷ "T83x_FRAG_QUADS_EZS_KILLED" ∷ "T83x_FRAG_THREADS_LZS_TEST" ∷ "T83x_FRAG_THREADS_LZS_KILLED"
    ∷ "T83x_FRAG_CYCLES_NO_TILE" ∷ "T83x_FRAG_NUM_TILES" ∷ "T83x_FRAG_TRANS_ELIM"
    ∷ "T83x_COMPUTE_ACTIVE" ∷ "T83x_COMPUTE_TASKS" ∷ "T83x_COMPUTE_THREADS"
    ∷ "T83x_COMPUTE_CYCLES_DESC" ∷ "T83x_TRIPIPE_ACTIVE" ∷ "T83x_ARITH_WORDS"
    ∷ "T83x_ARITH_CYCLES_REG" ∷ "T83x_ARITH_CYCLES_L0" ∷ "T83x_ARITH_FRAG_DEPEND" ∷ "T83x_LS_WORDS"
    ∷ "T83x_LS_ISSUES" ∷ "T83x_LS_REISSUE_ATTR" ∷ "T83x_LS_REISSUES_VARY" ∷ "T83x_LS_VARY_RV_MISS"
    ∷ "T83x_LS_VARY_RV_HIT" ∷ "T83x_LS_NO_UNPARK" ∷ "T83x_TEX_WORDS" ∷ "T83x_TEX_BUBBLES"
    ∷ "T83x_TEX_WORDS_L0" ∷ "T83x_TEX_WORDS_DESC" ∷ "T83x_TEX_ISSUES" ∷ "T83x_TEX_RECIRC_FMISS"
    ∷ "T83x_TEX_RECIRC_DESC" ∷ "T83x_TEX_RECIRC_MULTI" ∷ "T83x_TEX_RECIRC_PMISS"
    ∷ "T83x_TEX_RECIRC_CONF" ∷ "T83x_LSC_READ_HITS" ∷ "T83x_LSC_READ_OP" ∷ "T83x_LSC_WRITE_HITS"
    ∷ "T83x_LSC_WRITE_OP" ∷ "T83x_LSC_ATOMIC_HITS" ∷ "T83x_LSC_ATOMIC_OP" ∷ "T83x_LSC_LINE_FETCHES"
    ∷ "T83x_LSC_DIRTY_LINE" ∷ "T83x_LSC_SNOOPS" ∷ "T83x_AXI_TLB_STALL" ∷ "T83x_AXI_TLB_MISS"
    ∷ "T83x_AXI_TLB_TRANSACTION" ∷ "T83x_LS_TLB_MISS" ∷ "T83x_LS_TLB_HIT" ∷ "T83x_AXI_BEATS_READ"
    ∷ "T83x_AXI_BEATS_WRITTEN" ∷ []

abbrev pub memory_system : List String
memory_system =
    "" ∷ "" ∷ "" ∷ "" ∷ "T83x_MMU_HIT" ∷ "T83x_MMU_NEW_MISS" ∷ "T83x_MMU_REPLAY_FULL"
    ∷ "T83x_MMU_REPLAY_MISS" ∷ "T83x_MMU_TABLE_WALK" ∷ "T83x_MMU_REQUESTS" ∷ "" ∷ ""
    ∷ "T83x_UTLB_HIT" ∷ "T83x_UTLB_NEW_MISS" ∷ "T83x_UTLB_REPLAY_FULL" ∷ "T83x_UTLB_REPLAY_MISS"
    ∷ "T83x_UTLB_STALL" ∷ "" ∷ "" ∷ "" ∷ "" ∷ "" ∷ "" ∷ "" ∷ "" ∷ "" ∷ "" ∷ "" ∷ "" ∷ ""
    ∷ "T83x_L2_EXT_WRITE_BEATS" ∷ "T83x_L2_EXT_READ_BEATS" ∷ "T83x_L2_ANY_LOOKUP"
    ∷ "T83x_L2_READ_LOOKUP" ∷ "T83x_L2_SREAD_LOOKUP" ∷ "T83x_L2_READ_REPLAY" ∷ "T83x_L2_READ_SNOOP"
    ∷ "T83x_L2_READ_HIT" ∷ "T83x_L2_CLEAN_MISS" ∷ "T83x_L2_WRITE_LOOKUP" ∷ "T83x_L2_SWRITE_LOOKUP"
    ∷ "T83x_L2_WRITE_REPLAY" ∷ "T83x_L2_WRITE_SNOOP" ∷ "T83x_L2_WRITE_HIT" ∷ "T83x_L2_EXT_READ_FULL"
    ∷ "" ∷ "T83x_L2_EXT_WRITE_FULL" ∷ "T83x_L2_EXT_R_W_HAZARD" ∷ "T83x_L2_EXT_READ"
    ∷ "T83x_L2_EXT_READ_LINE" ∷ "T83x_L2_EXT_WRITE" ∷ "T83x_L2_EXT_WRITE_LINE"
    ∷ "T83x_L2_EXT_WRITE_SMALL" ∷ "T83x_L2_EXT_BARRIER" ∷ "T83x_L2_EXT_AR_STALL"
    ∷ "T83x_L2_EXT_R_BUF_FULL" ∷ "T83x_L2_EXT_RD_BUF_FULL" ∷ "T83x_L2_EXT_R_RAW"
    ∷ "T83x_L2_EXT_W_STALL" ∷ "T83x_L2_EXT_W_BUF_FULL" ∷ "T83x_L2_EXT_R_BUF_FULL"
    ∷ "T83x_L2_TAG_HAZARD" ∷ "T83x_L2_SNOOP_FULL" ∷ "T83x_L2_REPLAY_FULL" ∷ []

unfoldable pub hardware_counters : List String
hardware_counters = job_manager ++ (tiler ++ (shader ++ memory_system))
